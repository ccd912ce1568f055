-- ===== src/Job/RoundTrip.antt =====
-- A job that is saved and loaded again.
use bridge_core.Prelude.{ℕ, ◌+◌, ◌*◌, ◌^◌, ◌≤◌, ◌<◌, ◌≡◌, String, Option, some, List, arith}
use bridge_core.Prelude.Int.{pos, int32, int32-pos}
use bridge_core.Models.{JobRow}
use bridge_core.Job.Base.{Codec, BaseJob, new_base_job, row_of, save}

-- Decoding undoes encoding, as the documentation of hexutil and common says.
pub record IsCodec (codec : Codec) : Type 0 where
  pub decode-encode : (n : ℕ) → codec.decode_big (codec.encode_big n) ≡ some n
  pub hex-bytes : (bs : List ℕ) → codec.hex_to_bytes (codec.bytes_to_hex bs) ≡ bs

module _ (codec : Codec) (ok : IsCodec codec) where
  -- A job loaded from the row that Save wrote is the saved job, with the retry delay counted anew
  -- from the time of loading and the defaults of NewBaseJob for the bounds.
  pub new_base_job-save :
      (store : JobRow → Option ℕ) (saved_at now id : ℕ) (status : String) (e : BaseJob)
      → store (row_of codec saved_at status e) ≡ some id
      → (after : BaseJob) × (save codec store saved_at status e ≡ some after)
        × (new_base_job codec now e.listener
              (record (row_of codec saved_at status e) { id = id })
              e.tx
            ≡ some
                (record after { max_try = 20; next_try = now + e.retry_count * 5; back_off = 5 }))
  unfolding save new_base_job row_of
  new_base_job-save store saved_at now id status e h = (
    record e { id = int32 id; created_at = saved_at },
    ground arith,
    ground (arith, ok.decode-encode e.from_chain_id, ok.hex-bytes e.bytes),
  )

  -- Save gives a job the id of its row, and a later Save of the job writes to that same row, as
  -- long as the ids of the job table fit an int32.
  pub save-row_of-id :
      (store : JobRow → Option ℕ) (now later id : ℕ) (status status' : String) (e after : BaseJob)
      → store (row_of codec now status e) ≡ some id
      → 0 < id
      → id < 2 ^ 31
      → save codec store now status e ≡ some after
      → (after.id ≡ pos id) × ((row_of codec later status' after).id ≡ id)
  unfolding save row_of
  save-row_of-id store now later id status status' e after h p q s = ground (arith, int32-pos id q)

  -- An id from 2^31 up to 2^32 - 1 turns negative, so that a later Save inserts a second row.
  pub save-row_of-overflow :
      (store : JobRow → Option ℕ) (now later id : ℕ) (status status' : String) (e after : BaseJob)
      → store (row_of codec now status e) ≡ some id
      → 2 ^ 31 ≤ id
      → id < 2 ^ 32
      → save codec store now status e ≡ some after
      → (row_of codec later status' after).id ≡ 0
  unfolding save row_of
  save-row_of-overflow store now later id status status' e after h p q s = ground arith
