-- ===== src/Controller/Close/Loop.antt =====
-- While the caller's context is not done, the pool stays in its loop.
use bridge_core.Pool.Ops.{enqueue}
use bridge_core.Pool.Retry.{
  timer_fires, prepare_retryable_job, retrier_step, context_done, Wake, begin,
}
use bridge_core.Pool.System.{
  main_moves, retrier_moves, worker_moves, Event, step, passes, enqueues, cancels,
}
use bridge_core.Pool.Main.{main_step, Choice}
use bridge_core.Pool.Workers.{start_worker, Verdict}
use bridge_core.Types.{JobHandler}
use bridge_core.Pool.State.{
  MainPc, Pool, Retrier, dispatching, sending, ready, timing, requeueing, selecting,
}
use bridge_core.Prelude.{
  ℕ, ◌≡◌, Bool, refl, true, arith, not, get_elem?, false, none, Option-cases, inr, Option, some,
  inl,
}

abbrev in_loop : {J : Type 0} → MainPc J → Bool
in_loop selecting = true
in_loop (dispatching last job) = not last
in_loop (sending last i job) = not last
in_loop _ = false

pub record Looping {J : Type 0} (p : Pool J) : Type 0 where
  pub not_cancelled : p.cancelled ≡ false
  pub still_open : p.is_closed ≡ false
  pub loops : in_loop p.main ≡ true

module _ {J : Type 0} (h : JobHandler J) (p q : Pool J) (i : ℕ) where
  retrier_step-Looping :
      (wake : Wake) (saved : Bool) (r : Retrier J)
      → retrier_step h wake saved p i r ≡ some q
      → Looping p
      → Looping q
  unfolding retrier_step begin
  retrier_step-Looping wake saved (ready job) e s = ground arith
  retrier_step-Looping timer_fires saved (timing job) e s = ground arith
  retrier_step-Looping context_done saved (timing job) e s = ground arith
  retrier_step-Looping wake saved (requeueing job) e s = ground arith

module _ {J : Type 0} (p q : Pool J) (s : Looping p) where
  enqueue-Looping : (saved : Bool) (job : Option J) → enqueue saved job p ≡ some q → Looping q
  unfolding enqueue
  enqueue-Looping saved none e = ground arith
  enqueue-Looping saved (some job) e = ground arith

  start_worker-Looping :
      (h : JobHandler J) (v : Verdict) (saved : Bool) (i : ℕ)
      → start_worker h v saved i p ≡ some q
      → Looping q
  unfolding start_worker
  start_worker-Looping h v saved i e = ground arith

  main_step-Looping :
      (c : Choice) (saved : Bool) (m : MainPc J)
      → p.main ≡ m
      → main_step c saved p m ≡ some q
      → Looping q
  unfolding main_step
  main_step-Looping c saved selecting at e = ground arith
  main_step-Looping c saved m at e = ground arith

  prepare_retryable_job-Looping :
      (h : JobHandler J) (wake : Wake) (saved : Bool) (i : ℕ)
      → prepare_retryable_job h wake saved i p ≡ some q
      → Looping q
  unfolding prepare_retryable_job
  prepare_retryable_job-Looping h wake saved i e = elim (Option-cases (get_elem? p.retriers i)) [
    | inl gone ↦ ground (arith, gone)
    | inr (r, at) ↦
        retrier_step-Looping h p q i wake saved r (rw (at, prepare_retryable_job) at e) s
  ]

-- The event is not the end of the caller's context.
abbrev pub keeps_context : {J : Type 0} → Event J → Bool
keeps_context cancels = false
keeps_context _ = true

module _ {J : Type 0} (h : JobHandler J) where
  pub step-Looping :
      (e : Event J) (p q : Pool J)
      → keeps_context e ≡ true
      → step h e p ≡ some q
      → Looping p
      → Looping q
  unfolding step
  step-Looping (passes k) p q keeps e s = ground arith
  step-Looping cancels p q keeps e s = cc
  step-Looping (enqueues saved job) p q keeps e s = enqueue-Looping p q s saved job e
  step-Looping (main_moves c saved) p q keeps e s = main_step-Looping p q s c saved p.main refl e
  step-Looping (worker_moves v saved i) p q keeps e s = start_worker-Looping p q s h v saved i e
  step-Looping (retrier_moves wake saved i) p q keeps e s =
      prepare_retryable_job-Looping p q s h wake saved i e
