-- ===== src/Controller/Pending/Restart.antt =====
-- What the shutdown wrote is found at the next start.
use bridge_core.Prelude.Int.{int32}
use bridge_core.Controller.Pending.Rows.{World, is_invalid, names, request}
use bridge_core.Stores.Jobs.{JobTable, search_jobs}
use bridge_core.Types.{callback_handler, Listener}
use bridge_core.Prelude.{
  ℕ, zero, suc, ◌≤◌, ◌≡◌, subst, sym, inl, inr, Bool, true, some, List, [], ◌∷◌, get_elem?, weigh,
  arith, Bool-cases, String, ◌⊎◌, ◌<◌, ◌+◌, ◌*◌, ◌==◌, length,
}
use bridge_core.Models.{JobRow}
use bridge_core.Models.Status.{pending}
use bridge_core.Job.Base.{Codec, BaseJob, row_of, new_base_job}
use bridge_core.Job.RoundTrip.{IsCodec}
use bridge_core.Stores.Search.{keep, is_in, search_jobs_lem, IsTable, wanted}

in_keep :
    (p : JobRow → Bool) (rs : List JobRow) (i : ℕ) (r : JobRow)
    → get_elem? rs i ≡ some r
    → p r ≡ true
    → (w : JobRow → ℕ) → w r ≤ weigh w (keep p rs)
in_keep p [] i r there kept w = ground (arith, there)
in_keep p (x ∷ rs) zero r there kept w =
    let same : x ≡ r = ground (arith, there) in
    let x_kept : p x ≡ true = subst (λ y. p y ≡ true) (sym same) kept in
    subst (λ y. w y ≤ weigh w (keep p (x ∷ rs))) same (rw x_kept (omega arith))
in_keep p (x ∷ rs) (suc i) r there kept w =
    let rest = in_keep p rs i r there kept w in
    elim (Bool-cases (p x)) [
      | inl x_kept ↦ rw x_kept (omega (arith, rest))
      | inr left_out ↦ rw left_out rest
    ]

module _ {W J : Type 0} (world : World W J) (codec : Codec) where
  -- The row that Save wrote for the job as pending, with the id that it was given.
  abbrev pub saved_row : ℕ → ℕ → BaseJob → JobRow
  saved_row saved_at id e = record (row_of codec saved_at pending e) { id = id }

  saved_row-wanted :
      (ls : List (String × Listener)) (frame saved_at id : ℕ) (e : BaseJob)
      → saved_at < frame
      → is_in e.listener.listener_name (names ls) ≡ true
      → wanted (request world ls frame) (saved_row saved_at id e) ≡ true
  unfolding row_of
  saved_row-wanted ls frame saved_at id e before known = ground (arith, before, known)

  -- In a table that honours the clauses and the limit of a query: the row that Save wrote of a job as
  -- pending, before the frame that processPendingJobs asks about and under the name of one of the
  -- controller's listeners, is among the rows that its search finds, unless it finds 200, in that they
  -- weigh at least as much as the row by every weight. Its new job is the saved one, with the retry
  -- delay counted from the loading; and the row is taken to be invalid exactly for a callback job,
  -- whose method Save does not write.
  pub search_jobs-saved_row :
      {D : Type 0} (table : JobTable D) (t : IsTable table) (ok : IsCodec codec)
      (ls : List (String × Listener)) (frame saved_at later id i : ℕ) (e : BaseJob) (d : D)
      (rs : List JobRow)
      → saved_at < frame
      → is_in e.listener.listener_name (names ls) ≡ true
      → get_elem? (t.rows d) i ≡ some (saved_row saved_at id e)
      → search_jobs table (request world ls frame) d ≡ some rs
      → (((w : JobRow → ℕ) → w (saved_row saved_at id e) ≤ weigh w rs) ⊎ (length rs ≡ 200))
        × (new_base_job codec later e.listener (saved_row saved_at id e) e.tx
            ≡ some (record e {
              id = int32 id;
              created_at = saved_at;
              max_try = 20;
              next_try = later + e.retry_count * 5;
              back_off = 5;
            }))
        × (is_invalid (saved_row saved_at id e) ≡ (e.job_type == callback_handler))
  unfolding new_base_job row_of
  search_jobs-saved_row table t ok ls frame saved_at later id i e d rs before known there found =
      let (all, few, whole) = search_jobs_lem table t (request world ls frame) d rs found in
      let kept =
        in_keep (wanted (request world ls frame)) (t.rows d) i (saved_row saved_at id e) there
          (saved_row-wanted ls frame saved_at id e before known) in
      (
        elim whole [
          | inl same ↦ inl (λ w. omega (arith, same w, kept w))
          | inr reached ↦ inr reached
        ],
        ground (arith, ok.decode-encode e.from_chain_id, ok.hex-bytes e.bytes),
        ground arith,
      )
