-- ===== src/Controller/Batch/Loop.antt =====
-- The loop of processBatchLogs, on fuel. The answers of the node are functions of the number of the
-- call, since the same question may fail once and succeed later; FilterLogs is asked with the
-- addresses and methods of the filters. What the loop does to the world is
-- its trace, oldest first.
use bridge_core.Prelude.{
  ℕ, zero, suc, ◌+◌, ◌-◌, ◌%◌, ◌^◌, String, Option, none, some, List, [], ◌∷◌, ◌++◌, map, ltb, ◌==◌,
  if◌then◌else◌,
}
use bridge_core.Prelude.Outcome.{Outcome, returns, panics, ◌>>=◌}
use bridge_core.Types.{Log, Block, Listener}
use bridge_core.Controller.Filters.{Filters, no_filters, add_subscriptions}
use bridge_core.Controller.Logs.{LogTools, Processed, process_logs}

pub data Effect (J : Type 0) : Type 0 where
  filtered : ℕ → ℕ → List Log → Effect J  -- the logs of the blocks from the first to the second
  filter_failed : ℕ → ℕ → Effect J
  cached : List (ℕ × Unit {0}) → Effect J  -- listener.CacheBlocks
  enqueued : Option J → Effect J  -- c.Pool.Enqueue
  updated : Option Block → Effect J  -- listener.UpdateCurrentBlock
  saved_current_block : Effect J  -- listener.SaveCurrentBlockToDB

pub record Node : Type 0 where
  pub get_chain_id : Option ℕ
  pub filter_logs : Filters → ℕ → ℕ → ℕ → Option (List Log)
  pub get_block : ℕ → ℕ → Option Block

pub record BatchState (J : Type 0) : Type 0 where
  pub from_height : ℕ
  pub retry : ℕ
  pub calls : ℕ
  pub trace : List (Effect J)

abbrev pub u64 : ℕ → ℕ
u64 n = n % 2 ^ 64

-- *opts.End
unfoldable pub batch_end : ℕ → ℕ → ℕ → ℕ
batch_end batch_size to_height from =
    if ltb (u64 (from + batch_size)) to_height
    then u64 (from + batch_size)
    else (if from == to_height - 1 then from else to_height - 1)

module _ {J : Type 0} (tools : LogTools J) (node : Node) (chain_id : ℕ) (f : Filters)
    (batch_size to_height : ℕ) where
  abbrev pub round_effects : ℕ → ℕ → ℕ → List Log → Processed J → List (Effect J)
  round_effects from end calls logs done =
      (filtered from end logs ∷ cached done.processed_blocks ∷ [])
      ++ map enqueued done.jobs
      ++ updated (node.get_block calls (u64 (end + 1))) ∷ saved_current_block ∷ []

  abbrev pub advance : BatchState J → ℕ → List Log → Processed J → BatchState J
  advance s end logs done = record {
    from_height = u64 (end + 1);
    retry = s.retry;
    calls = s.calls + 1;
    trace = s.trace ++ round_effects s.from_height end s.calls logs done;
  }

  abbrev pub retry_later : BatchState J → ℕ → BatchState J
  retry_later s end = record s {
    retry = s.retry + 1;
    calls = s.calls + 1;
    trace = s.trace ++ filter_failed s.from_height end ∷ [];
  }

  -- One round of the loop.
  unfoldable pub batch_round : BatchState J → Outcome (BatchState J)
  batch_round s =
      let end = batch_end batch_size to_height s.from_height in
      elim (node.filter_logs f s.calls s.from_height end) [
        | none ↦ returns (retry_later s end)
        | some logs ↦
            process_logs tools chain_id f.event_ids logs
              (record { processed_blocks = []; jobs = [] })
            >>= λ done. returns (advance s end logs done)
      ]

  abbrev pub continue_with :
      (BatchState J → Option (Outcome (BatchState J)))
      → Outcome (BatchState J)
      → Option (Outcome (BatchState J))
  continue_with loop panics = some panics
  continue_with loop (returns s) = loop s

  -- `none` means that the fuel ran out.
  unfoldable pub batch_loop : ℕ → BatchState J → Option (Outcome (BatchState J))
  batch_loop zero s = none
  batch_loop (suc fuel) s =
      let rest = continue_with (batch_loop fuel) (batch_round s) in
      if ltb s.from_height to_height
      then (if s.retry == 10 then some (returns s) else rest)
      else some (returns s)

module _ {J : Type 0} (tools : LogTools J) (node : Node) (hex_to_address : String → ℕ)
    (listener : Listener) (batch_size : ℕ) where
  abbrev pub batch_start : ℕ → BatchState J
  batch_start from = record { from_height = from; retry = 0; calls = 0; trace = [] }

  -- Enough fuel for the blocks and for the ten failures.
  abbrev pub batch_fuel : ℕ → ℕ → ℕ
  batch_fuel from to = to - from + 11

  -- processBatchLogs, with the state in which its loop ends: the height returned is `from_height`.
  unfoldable pub process_batch_logs : ℕ → ℕ → Option (Outcome (BatchState J))
  process_batch_logs from to = elim (node.get_chain_id) [
    | none ↦ some (returns (batch_start from))
    | some chain_id ↦ elim (add_subscriptions hex_to_address listener.subscriptions no_filters) [
      | panics ↦ some panics
      | returns f ↦
          batch_loop tools node chain_id f batch_size to (batch_fuel from to) (batch_start from)
    ]
  ]
