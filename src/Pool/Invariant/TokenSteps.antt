-- ===== src/Pool/Invariant/TokenSteps.antt =====
-- Every schedule keeps the tokens.
use bridge_core.Prelude.{
  ℕ, ◌<◌, ◌≡◌, refl, Bool, some, List, get_elem?, arith, inl, inr, subst, Option-cases, Option,
  none,
}
use bridge_core.Pool.State.{
  Pool, MainPc, selecting, dispatching, sending, closing_worker, waiting_worker, closing_channels,
  saving_retries, waiting_retries, saving_failures, draining, closing, Retrier, ready, halted,
  timing, requeueing,
}
use bridge_core.Pool.Main.{
  Choice, drain, await_worker, close_channels, save_retry, save_failure, await_retries, close_jobs,
  main_step,
}
use bridge_core.Pool.Invariant.Phases.{stage, Phases}
use bridge_core.Pool.Invariant.Tokens.{Tokens, Tokens-main, main_token}
use bridge_core.Pool.Invariant.MainTokens.{
  select-Tokens, dispatch-Tokens, hand_out-Tokens, close_worker-Tokens,
}
use bridge_core.Pool.Invariant.WorkerTokens.{start_worker-Tokens}
use bridge_core.Pool.Invariant.PhaseSteps.{Run-Phases}
use bridge_core.Pool.System.{
  Event, passes, cancels, enqueues, main_moves, worker_moves, retrier_moves, step, Run, here, next,
}
use bridge_core.Pool.Retry.{Wake, timer_fires, context_done, prepare_retryable_job, retrier_step}
use bridge_core.Pool.Ops.{enqueue}
use bridge_core.Types.{JobHandler}

module _ {J : Type 0} (p q : Pool J) (t : Tokens p) where
  -- The other steps of the shutdown leave the workers and the queue's entries alone.
  drain-Tokens : p.main ≡ draining → drain p ≡ some q → Tokens q
  unfolding drain
  drain-Tokens now e =
      Tokens-main p q (ground (arith, e)) (ground (arith, e)) (λ j. ground (arith, now, e))
        (λ s. rw now (omega arith)) t

  await_worker-Tokens : (n : ℕ) → p.main ≡ waiting_worker n → await_worker n p ≡ some q → Tokens q
  unfolding await_worker
  await_worker-Tokens n now e =
      Tokens-main p q (ground (arith, e)) (ground (arith, e)) (λ j. ground (arith, now, e))
        (λ s. ground (arith, e, s)) t

  close_channels-Tokens : p.main ≡ closing_channels → close_channels p ≡ q → Tokens q
  unfolding close_channels
  close_channels-Tokens now e = subst Tokens e (record {
    token = λ j k at.
        let old = t.token j k at in
        let nothing : main_token p.main j ≡ 0 = rw now refl in omega (arith, old, nothing);
    strange = λ j beyond.
        let old = t.strange j beyond in
        let nothing : main_token p.main j ≡ 0 = rw now refl in omega (arith, old, nothing);
    still_open = λ j k at s. absurd (omega (arith, s));
    within = t.within;
  })

  save_retry-Tokens :
      (saved : Bool) → p.main ≡ saving_retries → save_retry saved p ≡ some q → Tokens q
  unfolding save_retry
  save_retry-Tokens saved now e =
      Tokens-main p q (ground (arith, e)) (ground (arith, e)) (λ j. ground (arith, now, e))
        (λ s. ground (arith, now, e, s)) t

  save_failure-Tokens :
      (saved : Bool) → p.main ≡ saving_failures → save_failure saved p ≡ some q → Tokens q
  unfolding save_failure
  save_failure-Tokens saved now e =
      Tokens-main p q (ground (arith, e)) (ground (arith, e)) (λ j. ground (arith, now, e))
        (λ s. ground (arith, now, e, s)) t

  await_retries-Tokens : p.main ≡ waiting_retries → await_retries p ≡ some q → Tokens q
  unfolding await_retries
  await_retries-Tokens now e =
      Tokens-main p q (ground (arith, e)) (ground (arith, e)) (λ j. ground (arith, now, e))
        (λ s. ground (arith, e, s)) t

  close_jobs-Tokens : p.main ≡ closing → close_jobs p ≡ q → Tokens q
  unfolding close_jobs
  close_jobs-Tokens now e =
      Tokens-main p q (ground (arith, e)) (ground (arith, e)) (λ j. ground (arith, now, e))
        (λ s. rw now (omega arith)) t

  main_step-Tokens :
      (f : Phases p) (c : Choice) (saved : Bool) (m : MainPc J)
      → p.main ≡ m
      → main_step c saved p m ≡ some q
      → Tokens q
  unfolding main_step
  main_step-Tokens f c saved selecting now e = select-Tokens p q t c saved now e
  main_step-Tokens f c saved (dispatching last job) now e =
      dispatch-Tokens p q t last job p.queue.items refl now e
  main_step-Tokens f c saved (sending last i job) now e =
      hand_out-Tokens p q t f last i job now saved e
  main_step-Tokens f c saved closing now e = close_jobs-Tokens now (ground (arith, e))
  main_step-Tokens f c saved draining now e = drain-Tokens now e
  main_step-Tokens f c saved (closing_worker n) now e =
      close_worker-Tokens p q t n now (ground (arith, e))
  main_step-Tokens f c saved (waiting_worker n) now e = await_worker-Tokens n now e
  main_step-Tokens f c saved closing_channels now e = close_channels-Tokens now (ground (arith, e))
  main_step-Tokens f c saved saving_retries now e = save_retry-Tokens saved now e
  main_step-Tokens f c saved saving_failures now e = save_failure-Tokens saved now e
  main_step-Tokens f c saved waiting_retries now e = await_retries-Tokens now e
  main_step-Tokens f c saved halted now e = cc

  -- A step that leaves the workers, the queue and the main loop alone.
  Tokens-same : q.workers ≡ p.workers → q.queue ≡ p.queue → q.main ≡ p.main → Tokens q
  Tokens-same same_workers same_queue same_main =
      Tokens-main p q same_workers same_queue (λ j. rw same_main refl)
        (λ s. subst (λ m. stage m < 3) same_main s) t

  enqueue-Tokens : (saved : Bool) (job : Option J) → enqueue saved job p ≡ some q → Tokens q
  unfolding enqueue
  enqueue-Tokens saved none e =
      Tokens-same (ground (arith, e)) (ground (arith, e)) (ground (arith, e))
  enqueue-Tokens saved (some job) e =
      Tokens-same (ground (arith, e)) (ground (arith, e)) (ground (arith, e))

  module _ (h : JobHandler J) (i : ℕ) where
    retrier_step-Tokens :
        (wake : Wake) (saved : Bool) (r : Retrier J)
        → retrier_step h wake saved p i r ≡ some q
        → Tokens q
    unfolding retrier_step
    retrier_step-Tokens wake saved (ready job) e =
        Tokens-same (ground (arith, e)) (ground (arith, e)) (ground (arith, e))
    retrier_step-Tokens timer_fires saved (timing job) e =
        Tokens-same (ground (arith, e)) (ground (arith, e)) (ground (arith, e))
    retrier_step-Tokens context_done saved (timing job) e =
        Tokens-same (ground (arith, e)) (ground (arith, e)) (ground (arith, e))
    retrier_step-Tokens wake saved (requeueing job) e =
        Tokens-same (ground (arith, e)) (ground (arith, e)) (ground (arith, e))

    prepare_retryable_job-Tokens :
        (wake : Wake) (saved : Bool) → prepare_retryable_job h wake saved i p ≡ some q → Tokens q
    unfolding prepare_retryable_job
    prepare_retryable_job-Tokens wake saved e = elim (Option-cases (get_elem? p.retriers i)) [
      | inl gone ↦ ground (arith, gone, e)
      | inr (r, at) ↦ retrier_step-Tokens wake saved r (rw (at, prepare_retryable_job) at e)
    ]

module _ {J : Type 0} (h : JobHandler J) where
  pub step-Tokens :
      (e : Event J) (p q : Pool J) → step h e p ≡ some q → Phases p → Tokens p → Tokens q
  unfolding step
  step-Tokens (passes n) p q e f t =
      Tokens-same p q t (ground (arith, e)) (ground (arith, e)) (ground (arith, e))
  step-Tokens cancels p q e f t =
      Tokens-same p q t (ground (arith, e)) (ground (arith, e)) (ground (arith, e))
  step-Tokens (enqueues saved job) p q e f t = enqueue-Tokens p q t saved job e
  step-Tokens (main_moves c saved) p q e f t = main_step-Tokens p q t f c saved p.main refl e
  step-Tokens (worker_moves v saved i) p q e f t = start_worker-Tokens h v saved i p q e t
  step-Tokens (retrier_moves wake saved i) p q e f t =
      prepare_retryable_job-Tokens p q t h i wake saved e

  pub Run-Tokens :
      {p q : Pool J} {es : List (Event J)} → Run h p es q → Phases p → Tokens p → Tokens q
  Run-Tokens here f t = t
  Run-Tokens (next {q = q} {r = r} {e = e} run st) f t =
      step-Tokens e q r st (Run-Phases h run f) (Run-Tokens run f t)
