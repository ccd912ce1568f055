-- ===== src/Pool/Conservation/Steps.antt =====
-- Conservation over a step and over a whole schedule.
use bridge_core.Prelude.{ℕ, ◌+◌, ◌≡◌, refl, some, List, weigh, arith}
use bridge_core.Types.{JobHandler}
use bridge_core.Pool.State.{Pool}
use bridge_core.Pool.System.{
  Event, passes, cancels, enqueues, main_moves, worker_moves, retrier_moves, step, Run, here, next,
}
use bridge_core.Pool.Conservation.Weights.{IsStable, total, gained}
use bridge_core.Pool.Conservation.Moves.{total-enqueue, total-start_worker}
use bridge_core.Pool.Conservation.Retries.{total-prepare_retryable_job}
use bridge_core.Pool.Conservation.Loop.{total-main_step}

module _ {J : Type 0} (h : JobHandler J) (w : J → ℕ) (stable : IsStable h w) where
  -- Whatever goroutine moves, the weight of all jobs that the pool holds or has settled changes by
  -- the job that is enqueued, if the event is a call of Enqueue, and else not at all.
  pub total-step :
      (e : Event J) (p q : Pool J) → step h e p ≡ some q → total w q ≡ total w p + gained w e
  unfolding step
  total-step (passes n) p q s = ground arith
  total-step cancels p q s = ground arith
  total-step (enqueues saved job) p q s = total-enqueue w saved job p q s
  total-step (main_moves c saved) p q s = omega (arith, total-main_step w p q c saved p.main refl s)
  total-step (worker_moves v saved i) p q s =
      omega (arith, total-start_worker w p q i h stable v saved s)
  total-step (retrier_moves wake saved i) p q s =
      omega (arith, total-prepare_retryable_job w p q i h wake saved s)

  -- So over a whole schedule every job that was enqueued is accounted for: the jobs held and settled
  -- at the end weigh as much as those at the start and those that the schedule enqueued.
  pub total-Run :
      {p q : Pool J} {es : List (Event J)}
      → Run h p es q
      → total w q ≡ total w p + weigh (gained w) es
  total-Run here = omega arith
  total-Run (next {q = q} {r = r} {e = e} run s) = omega (arith, total-step e q r s, total-Run run)
