-- ===== src/Pool/Invariant/Sizes.antt =====
-- The number of the workers and the capacity of the queue never change.
use bridge_core.Pool.Ops.{enqueue}
use bridge_core.Pool.Retry.{prepare_retryable_job, Wake}
use bridge_core.Pool.Main.{main_step, Choice}
use bridge_core.Pool.System.{
  worker_moves, main_moves, retrier_moves, Run, step, Event, passes, next, enqueues, here, cancels,
}
use bridge_core.Pool.Workers.{Verdict, start_worker}
use bridge_core.Types.{JobHandler}
use bridge_core.Pool.State.{Pool, MainPc, closing_worker, sending}
use bridge_core.Prelude.{
  ℕ, Bool, Option-cases, arith, ◌≡◌, length-set, List, get_elem?, none, length, inr, inl, Option,
  some,
}

module _ {J : Type 0} where
  -- The number of the workers and the capacity of the queue, which no step changes.
  abbrev pub Sizes : Pool J → ℕ → ℕ → Type 0
  Sizes p n cap = (length p.workers ≡ n) × (p.queue.cap ≡ cap)

module _ {J : Type 0} (n cap : ℕ) (p q : Pool J) (s : Sizes p n cap) where
  enqueue-Sizes : (saved : Bool) (job : Option J) → enqueue saved job p ≡ some q → Sizes q n cap
  unfolding enqueue
  enqueue-Sizes saved none e = ground arith
  enqueue-Sizes saved (some job) e = ground arith

  main_step-Sizes :
      (c : Choice) (saved : Bool) (m : MainPc J) → main_step c saved p m ≡ some q → Sizes q n cap
  unfolding main_step
  main_step-Sizes c saved (sending last i job) e = elim (Option-cases (get_elem? p.workers i)) [
    | inl gone ↦ ground (arith, gone)
    | inr (w, at) ↦ grind (arith, at, length-set)
  ]
  main_step-Sizes c saved (closing_worker i) e = elim (Option-cases (get_elem? p.workers i)) [
    | inl gone ↦ ground (arith, gone)
    | inr (w, at) ↦ grind (arith, at, length-set)
  ]
  main_step-Sizes c saved m e = ground arith

  start_worker-Sizes :
      (h : JobHandler J) (v : Verdict) (saved : Bool) (i : ℕ)
      → start_worker h v saved i p ≡ some q
      → Sizes q n cap
  unfolding start_worker
  start_worker-Sizes h v saved i e = elim (Option-cases (get_elem? p.workers i)) [
    | inl gone ↦ ground (arith, gone)
    | inr (w, at) ↦ grind (arith, at, length-set)
  ]

  prepare_retryable_job-Sizes :
      (h : JobHandler J) (wake : Wake) (saved : Bool) (i : ℕ)
      → prepare_retryable_job h wake saved i p ≡ some q
      → Sizes q n cap
  unfolding prepare_retryable_job
  prepare_retryable_job-Sizes h wake saved i e = ground arith

module _ {J : Type 0} (h : JobHandler J) (n cap : ℕ) where
  pub step-Sizes :
      (e : Event J) (p q : Pool J) → step h e p ≡ some q → Sizes p n cap → Sizes q n cap
  unfolding step
  step-Sizes (passes k) p q e s = ground arith
  step-Sizes cancels p q e s = ground arith
  step-Sizes (enqueues saved job) p q e s = enqueue-Sizes n cap p q s saved job e
  step-Sizes (main_moves c saved) p q e s = main_step-Sizes n cap p q s c saved p.main e
  step-Sizes (worker_moves v saved i) p q e s = start_worker-Sizes n cap p q s h v saved i e
  step-Sizes (retrier_moves wake saved i) p q e s =
      prepare_retryable_job-Sizes n cap p q s h wake saved i e

  pub Run-Sizes :
      {p q : Pool J} {es : List (Event J)} → Run h p es q → Sizes p n cap → Sizes q n cap
  Run-Sizes here s = s
  Run-Sizes (next {q = q} {r = r} {e = e} run st) s = step-Sizes e q r st (Run-Sizes run s)
