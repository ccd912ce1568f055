-- ===== src/Job/Base.antt =====
-- BaseJob and its methods. `process` calls the event store; `save` returns what it hands to the job
-- store.
use bridge_core.Prelude.{
  ℕ, ◌+◌, ◌*◌, String, Option, none, some, List, if◌then◌else◌, ◌==◌, Bool, true, false,
}
use bridge_core.Prelude.Int.{ℤ, int32, positive, pos_part}
use bridge_core.Prelude.Map.{lookup, string_eq}
use bridge_core.Types.{
  Listener, Subscribe, Transaction, listen_handler, Handler, Processing, process_panics, value,
}
use bridge_core.Models.{JobRow, Event}

-- hexutil.EncodeBig, hexutil.DecodeBig, common.Bytes2Hex, common.Hex2Bytes and Hash.Hex.
pub record Codec : Type 0 where
  pub encode_big : ℕ → String
  pub decode_big : String → Option ℕ
  pub bytes_to_hex : List ℕ → String
  pub hex_to_bytes : String → List ℕ
  pub hash_hex : ℕ → String

pub record BaseJob : Type 0 where
  pub id : ℤ
  pub job_type : ℕ
  pub retry_count : ℕ
  pub max_try : ℕ
  pub next_try : ℕ
  pub back_off : ℕ
  pub bytes : List ℕ
  pub tx : Transaction
  pub subscription_name : String
  pub listener : Listener
  pub from_chain_id : ℕ
  pub created_at : ℕ

unfoldable pub increase_retry_count : BaseJob → BaseJob
increase_retry_count e = record e { retry_count = e.retry_count + 1 }

unfoldable pub update_next_try : ℕ → BaseJob → BaseJob
update_next_try next_try e = record e { next_try = next_try }

unfoldable pub set_id : ℤ → BaseJob → BaseJob
set_id id e = record e { id = id }

module _ (codec : Codec) where
  open codec use {encode_big, decode_big, bytes_to_hex, hex_to_bytes, hash_hex}

  -- NewBaseJob at the clock `now`; `none` is its error.
  unfoldable pub new_base_job : ℕ → Listener → JobRow → Transaction → Option BaseJob
  new_base_job now listener job transaction = elim (decode_big job.from_chain_id) [
    | none ↦ none
    | some chain_id ↦ some (record {
      id = int32 job.id;
      job_type = job.job_type;
      retry_count = job.retry_count;
      max_try = 20;
      next_try = now + job.retry_count * 5;
      back_off = 5;
      bytes = hex_to_bytes job.payload;
      tx = transaction;
      subscription_name = job.subscription_name;
      listener = listener;
      from_chain_id = chain_id;
      created_at = job.created_at;
    })
  ]

  abbrev pub new_event : ℕ → BaseJob → String → Event
  new_event now e name = record {
    event_name = name;
    transaction_hash = hash_hex e.tx.hash;
    chain = encode_big e.from_chain_id;
    saved_at = now;
  }

  module _ {W : Type 0} (save_event : Event → W → W × Bool) where
    -- After the event store's Save; an error is only logged.
    abbrev pub stored : BaseJob → W × Bool → W × Processing
    stored e (w, true) = (w, value (some e.bytes))
    stored e (w, false) = (w, value (some e.bytes))

    -- With the subscription of the job's name; its handler is read through a pointer.
    abbrev pub of_handler : ℕ → BaseJob → W → Option Handler → W × Processing
    of_handler now e w none = (w, process_panics)
    of_handler now e w (some handler) = stored e (save_event (new_event now e handler.name) w)

    abbrev pub of_subscription : ℕ → BaseJob → W → Option Subscribe → W × Processing
    of_subscription now e w none = (w, value (some e.bytes))
    of_subscription now e w (some subscription) = of_handler now e w subscription.handler

    -- Process at the clock `now`. Save of the event store acts on a world and answers whether it
    -- succeeded.
    unfoldable pub process : ℕ → BaseJob → W → W × Processing
    process now e w =
        if e.job_type == listen_handler
        then of_subscription now e w (lookup e.subscription_name e.listener.subscriptions)
        else (w, value none)

  -- The row that Save hands to the job store; a row without an id is inserted.
  unfoldable pub row_of : ℕ → String → BaseJob → JobRow
  row_of now status e = record {
    id = if positive e.id then pos_part e.id else 0;
    listener = e.listener.listener_name;
    subscription_name = e.subscription_name;
    job_type = e.job_type;
    retry_count = e.retry_count;
    status = status;
    payload = bytes_to_hex e.bytes;
    transaction = hash_hex e.tx.hash;
    created_at = now;
    from_chain_id = encode_big e.from_chain_id;
    method = "";
  }

  -- Save, with the job store as a function from the row to its id afterwards (`none`: an error).
  unfoldable pub save : (JobRow → Option ℕ) → ℕ → String → BaseJob → Option BaseJob
  unfolding row_of
  save store now status e = elim (store (row_of now status e)) [
    | none ↦ none
    | some id ↦ some (record e { id = int32 id; created_at = now })
  ]
