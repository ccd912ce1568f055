-- ===== src/Pool/Invariant/Counts.antt =====
-- The wait group, the counter of retrying jobs and the capacities of the channels.
use bridge_core.Prelude.{
  ℕ, ◌+◌, ◌≤◌, ◌≡◌, Bool, Option, none, some, List, get_elem?, length, length-set, length-erase_at,
  inl, inr, Option-cases, arith,
}
use bridge_core.Types.{JobHandler}
use bridge_core.Pool.State.{Retrier, ready, timing, requeueing, MainPc, selecting, Pool}
use bridge_core.Pool.Ops.{enqueue}
use bridge_core.Pool.Workers.{Verdict, start_worker}
use bridge_core.Pool.Main.{Choice, main_step}
use bridge_core.Pool.System.{
  Event, passes, cancels, enqueues, main_moves, worker_moves, retrier_moves, step, Run, here, next,
}
use bridge_core.Pool.Retry.{
  Wake, timer_fires, context_done, begin, retrier_step, prepare_retryable_job,
}

-- At least `n` units of the wait group belong to no goroutine, and the two counters agree.
pub record Surplus {J : Type 0} (n : ℕ) (p : Pool J) : Type 0 where
  pub spare : length p.retriers + n ≤ p.wait_group
  pub in_step : p.number_of_retrying_job ≡ p.wait_group

module _ {J : Type 0} (h : JobHandler J) (p q : Pool J) (i : ℕ) where
  retrier_step-Surplus :
      (n : ℕ) (wake : Wake) (saved : Bool) (r r' : Retrier J)
      → get_elem? p.retriers i ≡ some r
      → retrier_step h wake saved p i r' ≡ some q
      → Surplus n p
      → Surplus n q
  unfolding retrier_step begin
  retrier_step-Surplus n wake saved r (ready job) at e s =
      ground (arith, length-erase_at p.retriers i r at, length-set p.retriers i (timing job))
  retrier_step-Surplus n timer_fires saved r (timing job) at e s =
      ground (arith, length-set p.retriers i (requeueing job))
  retrier_step-Surplus n context_done saved r (timing job) at e s =
      ground (arith, length-erase_at p.retriers i r at)
  retrier_step-Surplus n wake saved r (requeueing job) at e s =
      ground (arith, length-erase_at p.retriers i r at)

module _ {J : Type 0} (n : ℕ) (p q : Pool J) (s : Surplus n p) where
  enqueue-Surplus : (saved : Bool) (job : Option J) → enqueue saved job p ≡ some q → Surplus n q
  unfolding enqueue
  enqueue-Surplus saved none e = ground arith
  enqueue-Surplus saved (some job) e = ground arith

  start_worker-Surplus :
      (h : JobHandler J) (v : Verdict) (saved : Bool) (i : ℕ)
      → start_worker h v saved i p ≡ some q
      → Surplus n q
  unfolding start_worker
  start_worker-Surplus h v saved i e = ground arith

  main_step-Surplus :
      (c : Choice) (saved : Bool) (m : MainPc J) → main_step c saved p m ≡ some q → Surplus n q
  unfolding main_step
  main_step-Surplus c saved selecting e = ground arith
  main_step-Surplus c saved m e = ground arith

  prepare_retryable_job-Surplus :
      (h : JobHandler J) (wake : Wake) (saved : Bool) (i : ℕ)
      → prepare_retryable_job h wake saved i p ≡ some q
      → Surplus n q
  unfolding prepare_retryable_job
  prepare_retryable_job-Surplus h wake saved i e = elim (Option-cases (get_elem? p.retriers i)) [
    | inl gone ↦ ground (arith, gone)
    | inr (r, at) ↦
        retrier_step-Surplus h p q i n wake saved r r at (rw (at, prepare_retryable_job) at e) s
  ]

module _ {J : Type 0} (h : JobHandler J) (n : ℕ) where
  pub step-Surplus : (e : Event J) (p q : Pool J) → step h e p ≡ some q → Surplus n p → Surplus n q
  unfolding step
  step-Surplus (passes k) p q e s = ground arith
  step-Surplus cancels p q e s = ground arith
  step-Surplus (enqueues saved job) p q e s = enqueue-Surplus n p q s saved job e
  step-Surplus (main_moves c saved) p q e s = main_step-Surplus n p q s c saved p.main e
  step-Surplus (worker_moves v saved i) p q e s = start_worker-Surplus n p q s h v saved i e
  step-Surplus (retrier_moves wake saved i) p q e s =
      prepare_retryable_job-Surplus n p q s h wake saved i e

  pub Run-Surplus : {p q : Pool J} {es : List (Event J)} → Run h p es q → Surplus n p → Surplus n q
  Run-Surplus here s = s
  Run-Surplus (next {q = q} {r = r} {e = e} run st) s = step-Surplus e q r st (Run-Surplus run s)
