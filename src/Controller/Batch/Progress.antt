-- ===== src/Controller/Batch/Progress.antt =====
-- Each round moves ahead or counts a failure, so that the loop ends.
use bridge_core.Prelude.{
  ℕ, zero, suc, ◌+◌, ◌-◌, ◌^◌, ◌≤◌, ◌<◌, ◌≡◌, ◌≢◌, ◌⊎◌, inl, inr, Option, none, some, List, [], ltb,
  ◌==◌, Bool-cases, Option-cases, arith,
}
use bridge_core.Prelude.Outcome.{Outcome, returns, Outcome-cases}
use bridge_core.Types.{Log}
use bridge_core.Controller.Filters.{Filters}
use bridge_core.Controller.Logs.{LogTools, Processed, process_logs}
use bridge_core.Controller.Batch.Loop.{
  Node, BatchState, batch_end, batch_round, batch_loop, advance, retry_later,
}

-- The batch starts at `from` and ends before `to`, if no sum wraps around.
pub batch_end_bounds :
    (batch_size to from : ℕ)
    → to + batch_size < 2 ^ 64
    → from < to
    → (from ≤ batch_end batch_size to from) × (batch_end batch_size to from < to)
unfolding batch_end
batch_end_bounds batch_size to from fits h = ground arith

module _ {J : Type 0} (tools : LogTools J) (node : Node) (chain_id : ℕ) (f : Filters)
    (batch_size to : ℕ) where
  abbrev round : BatchState J → Outcome (BatchState J)
  round = batch_round tools node chain_id f batch_size to

  abbrev loop : ℕ → BatchState J → Option (Outcome (BatchState J))
  loop = batch_loop tools node chain_id f batch_size to

  -- What a round that returns has done.
  pub batch_round-cases :
      (s s' : BatchState J)
      → round s ≡ returns s'
      → let end = batch_end batch_size to s.from_height in
        ((node.filter_logs f s.calls s.from_height end ≡ none)
          × (s' ≡ retry_later tools node chain_id f batch_size to s end))
        ⊎ ((logs : List Log) × (done : Processed J) × (node.filter_logs f s.calls s.from_height end
              ≡ some logs)
            × (process_logs tools chain_id f.event_ids logs
                  (record { processed_blocks = []; jobs = [] })
                ≡ returns done)
            × (s' ≡ advance tools node chain_id f batch_size to s end logs done))
  unfolding batch_round
  batch_round-cases s s' e =
      elim (Option-cases
        (node.filter_logs f s.calls s.from_height (batch_end batch_size to s.from_height))) [
          | inl failed ↦ inl (failed, ground (arith, failed))
          | inr (logs, got) ↦
              elim (Outcome-cases (
                process_logs tools chain_id f.event_ids logs
                  (record { processed_blocks = []; jobs = [] }))) [
                    | inl bad ↦ ground (arith, got, bad)
                    | inr (done, good) ↦ inr (logs, done, got, good, ground (arith, got, good))
                  ]
        ]

  -- Any property that every round keeps holds at the end, where all blocks are done or ten rounds
  -- have failed.
  pub batch_loop_inv {ℓ} :
      (P : BatchState J → Type ℓ)
      → ((s s' : BatchState J)
          → P s
          → s.from_height < to
          → s.retry ≢ 10
          → round s ≡ returns s'
          → P s')
      → (fuel : ℕ) (s r : BatchState J) → loop fuel s ≡ some (returns r)
      → P s
      → P r × ((to ≤ r.from_height) ⊎ (r.retry ≡ 10))
  unfolding batch_loop
  batch_loop_inv P keep zero s r e p = ground arith
  batch_loop_inv P keep (suc fuel) s r e p = elim (Bool-cases (ltb s.from_height to)) [
    | inr past ↦ ground (arith, past)
    | inl before ↦ elim (Bool-cases (s.retry == 10)) [
      | inl spent ↦ ground (arith, before, spent)
      | inr left ↦ elim (Outcome-cases (round s)) [
        | inl bad ↦ ground (arith, before, left, bad)
        | inr (s', moved) ↦
            batch_loop_inv P keep fuel s' r (ground (arith, before, left, moved))
              (keep s s' p (ground (arith, before)) (ground (arith, left)) moved)
      ]
    ]
  ]

  -- A failed round counts; a successful one moves ahead, and not past the end.
  pub batch_round-moves :
      (s s' : BatchState J)
      → to + batch_size < 2 ^ 64
      → s.from_height < to
      → round s ≡ returns s'
      → ((s'.from_height ≡ s.from_height) × (s'.retry ≡ s.retry + 1))
        ⊎ ((s.from_height < s'.from_height) × (s'.from_height ≤ to) × (s'.retry ≡ s.retry))
  batch_round-moves s s' fits before moved = elim (batch_round-cases s s' moved) [
    | inl (failed, e) ↦ inl (ground arith)
    | inr (logs, done, got, good, e) ↦
        let b = batch_end_bounds batch_size to s.from_height fits before in inr (ground arith)
  ]

  -- With enough fuel, and with rounds that do not panic, the loop returns.
  pub batch_loop_total :
      ((s : BatchState J) → s.from_height < to → (s' : BatchState J) × (round s ≡ returns s'))
      → to + batch_size < 2 ^ 64
      → (fuel : ℕ) (s : BatchState J) → s.retry ≤ 10
      → to - s.from_height + (10 - s.retry) < fuel
      → (r : BatchState J) × (loop fuel s ≡ some (returns r))
  unfolding batch_loop
  batch_loop_total live fits zero s few h = absurd (omega arith)
  batch_loop_total live fits (suc fuel) s few h = elim (Bool-cases (ltb s.from_height to)) [
    | inr past ↦ (s, ground (arith, past))
    | inl before ↦ elim (Bool-cases (s.retry == 10)) [
      | inl spent ↦ (s, ground (arith, before, spent))
      | inr left ↦
          let (s', moved) = live s (ground (arith, before)) in
          let m = batch_round-moves s s' fits (ground (arith, before)) moved in
          let (r, done) =
            batch_loop_total live fits fuel s' (ground (arith, left))
              (ground (arith, left, before)) in
          (r, ground (arith, before, left, moved, done))
    ]
  ]
