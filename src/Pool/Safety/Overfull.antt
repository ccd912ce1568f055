-- ===== src/Pool/Safety/Overfull.antt =====
-- A pool with more workers than places in the queue.
use bridge_core.Pool.System.{Run, Event}
use bridge_core.Pool.Setup.{with_defaults}
use bridge_core.Pool.Safety.Start.{set_up-AtRest, fresh_pool}
use bridge_core.Pool.Invariant.Tokens.{main_token, Tokens, count, due}
use bridge_core.Pool.Invariant.Phases.{IsStopped, IsDrained, Phases}
use bridge_core.Pool.Invariant.Sizes.{Run-Sizes}
use bridge_core.Pool.Invariant.TokenSteps.{Run-Tokens}
use bridge_core.Pool.Invariant.PhaseSteps.{Run-Phases}
use bridge_core.Pool.Invariant.FirstTokens.{fresh-Tokens, le-counts, counts-le-length}
use bridge_core.Types.{JobHandler}
use bridge_core.Pool.State.{Pool, Config, Worker, halted}
use bridge_core.Prelude.{
  ℕ, List, All-get_elem?, refl, length, ◌≢◌, ◌≡◌, get_elem?-some, ◌≤◌, some, get_elem?, arith, ◌<◌,
  [],
}

module _ {J : Type 0} where
  -- When the loop of Start has returned, the token of every worker is in the queue.
  halted-tokens :
      (q : Pool J) → Phases q → Tokens q → q.main ≡ halted → length q.workers ≤ length q.queue.items
  halted-tokens q f t over =
      let each : (j : ℕ) → j < length q.workers → 1 ≤ count j q.queue.items =
        λ j below. present j (get_elem?-some q.workers j below) in
      omega (
        arith,
        le-counts (length q.workers) q.queue.items each,
        counts-le-length (length q.workers) q.queue.items,
      )
    where
      present :
          (j : ℕ) → (k : Worker J) × (get_elem? q.workers j ≡ some k) → 1 ≤ count j q.queue.items
      present j (k, at) =
          let is : IsStopped k =
            All-get_elem? IsStopped q.workers j k (f.all_stopped (rw over (omega arith))) at in
          let empty : k.worker_chan.items ≡ [] =
            (All-get_elem? IsDrained q.workers j k f.drained at is).0 in
          let one : due k.pc ≡ 1 = rw is refl in
          let gone : main_token q.main j ≡ 0 = rw over refl in
          let none_waits : length k.worker_chan.items ≡ 0 = rw empty refl in
          omega (arith, one, gone, none_waits, t.token j k at)

  -- With more workers than places in the queue, no schedule of the pool that NewWithContext sets up
  -- ends the loop of Start: each worker leaves its token in the queue before it can stop.
  pub overfull-never_halts :
      (h : JobHandler J) (now : ℕ) (cfg : Config) {q : Pool J} {es : List (Event J)}
      → (with_defaults cfg).max_queue_size < (with_defaults cfg).number_of_workers
      → Run h (fresh_pool J now cfg) es q
      → q.main ≢ halted
  overfull-never_halts h now cfg {q} {es} over run halts =
      let rest = set_up-AtRest J now cfg in
      let t : Tokens q = Run-Tokens h run (rest.1.phases) (fresh-Tokens now cfg) in
      let f : Phases q = Run-Phases h run (rest.1.phases) in
      let sizes =
        Run-Sizes h (with_defaults cfg).number_of_workers (with_defaults cfg).max_queue_size run
          (rest.2, refl) in
      omega (arith, over, sizes, t.within, halted-tokens q f t halts)
