-- ===== src/Pool/Invariant/PhaseSteps.antt =====
-- Every step keeps the phases of the shutdown.
use bridge_core.Prelude.{
  ℕ, ◌≡◌, refl, Bool, Option, none, some, List, get_elem?, inl, inr, Option-cases, arith,
}
use bridge_core.Types.{JobHandler}
use bridge_core.Pool.State.{Retrier, ready, timing, requeueing, Pool}
use bridge_core.Pool.Invariant.WorkerPhases.{start_worker-Phases}
use bridge_core.Pool.Invariant.MainPhases.{main_step-Phases}
use bridge_core.Pool.System.{
  Event, passes, cancels, enqueues, main_moves, worker_moves, retrier_moves, step, Run, here, next,
}
use bridge_core.Pool.Ops.{enqueue}
use bridge_core.Pool.Retry.{
  Wake, timer_fires, context_done, begin, wait_for_try, retrier_step, prepare_retryable_job,
}
use bridge_core.Pool.Invariant.Phases.{Phases}

module _ {J : Type 0} (p q : Pool J) (f : Phases p) where
  enqueue-Phases : (saved : Bool) (job : Option J) → enqueue saved job p ≡ some q → Phases q
  unfolding enqueue
  enqueue-Phases saved none e = ground arith
  enqueue-Phases saved (some job) e = ground arith

  retrier_step-Phases :
      (h : JobHandler J) (wake : Wake) (saved : Bool) (i : ℕ) (r : Retrier J)
      → retrier_step h wake saved p i r ≡ some q
      → Phases q
  unfolding retrier_step begin wait_for_try
  retrier_step-Phases h wake saved i (ready job) e = ground arith
  retrier_step-Phases h timer_fires saved i (timing job) e = ground arith
  retrier_step-Phases h context_done saved i (timing job) e = ground arith
  retrier_step-Phases h wake saved i (requeueing job) e = ground arith

  prepare_retryable_job-Phases :
      (h : JobHandler J) (wake : Wake) (saved : Bool) (i : ℕ)
      → prepare_retryable_job h wake saved i p ≡ some q
      → Phases q
  unfolding prepare_retryable_job
  prepare_retryable_job-Phases h wake saved i e = elim (Option-cases (get_elem? p.retriers i)) [
    | inl gone ↦ ground (arith, gone)
    | inr (r, at) ↦ retrier_step-Phases h wake saved i r (rw (at, prepare_retryable_job) at e)
  ]

module _ {J : Type 0} (h : JobHandler J) where
  pub step-Phases : (e : Event J) (p q : Pool J) → step h e p ≡ some q → Phases p → Phases q
  unfolding step
  step-Phases (passes k) p q e f = ground arith
  step-Phases cancels p q e f = ground arith
  step-Phases (enqueues saved job) p q e f = enqueue-Phases p q f saved job e
  step-Phases (main_moves c saved) p q e f = main_step-Phases p q f c saved p.main refl e
  step-Phases (worker_moves v saved i) p q e f = start_worker-Phases h p q v saved i e f
  step-Phases (retrier_moves wake saved i) p q e f =
      prepare_retryable_job-Phases p q f h wake saved i e

  pub Run-Phases : {p q : Pool J} {es : List (Event J)} → Run h p es q → Phases p → Phases q
  Run-Phases here f = f
  Run-Phases (next {q = q} {r = r} {e = e} run st) f = step-Phases e q r st (Run-Phases run f)
