-- ===== src/Pool/Conservation/Kept.antt =====
-- Where the jobs of the pool are after a schedule whose steps are safe.
use bridge_core.Prelude.{
  ℕ, ◌+◌, ◌≡◌, refl, some, List, get_elem?, arith, inl, inr, Option-cases, weigh, true, false,
  Bool-cases, Option, none, ◌≤◌, ◌∙◌, ap, All-get_elem?,
}
use bridge_core.Types.{JobHandler}
use bridge_core.Pool.State.{
  Pool, Worker, WorkerPc, registering, receiving, processing, failing, retrying, stopped, exited,
  Retrier, ready, timing, requeueing,
}
use bridge_core.Pool.Ops.{enqueue}
use bridge_core.Pool.Workers.{Verdict, succeeds, fails, crashes, worker_step, start_worker}
use bridge_core.Pool.Retry.{Wake, timer_fires, context_done, retrier_step, prepare_retryable_job}
use bridge_core.Pool.System.{
  Event, passes, cancels, enqueues, main_moves, worker_moves, retrier_moves, step, Run, here, next,
}
use bridge_core.Pool.Invariant.Phases.{Phases, IsStopped, stage}
use bridge_core.Pool.Invariant.PhaseSteps.{Run-Phases}
use bridge_core.Pool.Safety.Start.{AtRest}
use bridge_core.Pool.Conservation.Weights.{IsStable, held, gained}
use bridge_core.Pool.Conservation.Steps.{total-Run}
use bridge_core.Pool.Conservation.Losses.{kept, is_crash, is_overdue, is_safe, all_safe, Lossless}
use bridge_core.Pool.Conservation.MainLosses.{main_step-Lossless}

module _ {J : Type 0} (h : JobHandler J) (p q : Pool J) where
  module _ (f : Phases p) (i : ℕ) (k : Worker J) (at : get_elem? p.workers i ≡ some k) where
    -- A worker that has a failed job to hand over still finds the channel open.
    failed_open_for : (job : J) → k.pc ≡ failing job → p.failed_job_chan.closed ≡ false
    failed_open_for job now = elim (Bool-cases p.failed_job_chan.closed) [
      | inr is_open ↦ is_open
      | inl shut ↦
          let late : 4 ≤ stage p.main = ground (arith, f.failed_open, shut) in
          let over : IsStopped k = All-get_elem? IsStopped p.workers i k (f.all_stopped late) at in
          cc
    ]

    worker_step-Lossless :
        (v : Verdict) (pc : WorkerPc J)
        → is_crash v ≡ false
        → k.pc ≡ pc
        → worker_step h v true p i k pc ≡ some q
        → Lossless p q
    unfolding worker_step
    worker_step-Lossless v registering calm now e = ground (arith, e)
    worker_step-Lossless v receiving calm now e = ground (arith, e)
    worker_step-Lossless succeeds (processing job) calm now e = ground (arith, e)
    worker_step-Lossless fails (processing job) calm now e = ground (arith, e)
    worker_step-Lossless crashes (processing job) calm now e = ground arith
    worker_step-Lossless v (failing job) calm now e = ground (arith, failed_open_for job now, e)
    worker_step-Lossless v (retrying job) calm now e = ground (arith, e)
    worker_step-Lossless v stopped calm now e = ground arith
    worker_step-Lossless v exited calm now e = ground arith

  retrier_step-Lossless :
      (wake : Wake) (i : ℕ) (r : Retrier J)
      → is_overdue h (some r) p ≡ false
      → retrier_step h wake true p i r ≡ some q
      → Lossless p q
  unfolding retrier_step
  retrier_step-Lossless wake i (ready job) early e = ground (arith, early, e)
  retrier_step-Lossless timer_fires i (timing job) early e = ground (arith, e)
  retrier_step-Lossless context_done i (timing job) early e = ground (arith, e)
  retrier_step-Lossless wake i (requeueing job) early e = ground (arith, e)

  enqueue-Lossless : (job : Option J) → enqueue true job p ≡ some q → Lossless p q
  unfolding enqueue
  enqueue-Lossless none e = ground (arith, e)
  enqueue-Lossless (some job) e = ground (arith, e)

  step-Lossless :
      (e : Event J) → Phases p → is_safe h e p ≡ true → step h e p ≡ some q → Lossless p q
  unfolding step start_worker prepare_retryable_job
  step-Lossless (passes n) f safe s = ground (arith, s)
  step-Lossless cancels f safe s = ground (arith, s)
  step-Lossless (enqueues true job) f safe s = enqueue-Lossless job s
  step-Lossless (main_moves c true) f safe s = main_step-Lossless p q c p.main s
  step-Lossless (worker_moves v true i) f safe s = elim (Option-cases (get_elem? p.workers i)) [
    | inl gone ↦ ground (arith, gone, s)
    | inr (k, at) ↦
        worker_step-Lossless f i k at v k.pc (ground (arith, safe)) refl (ground (arith, at, s))
  ]
  step-Lossless (retrier_moves wake true i) f safe s =
      elim (Option-cases (get_elem? p.retriers i)) [
        | inl gone ↦ ground (arith, gone, s)
        | inr (r, at) ↦
            retrier_step-Lossless wake i r (ground (arith, at, safe)) (ground (arith, at, s))
      ]
  step-Lossless (enqueues false job) f safe s = ground (arith, safe)
  step-Lossless (main_moves c false) f safe s = ground (arith, safe)
  step-Lossless (worker_moves v false i) f safe s = ground (arith, safe)
  step-Lossless (retrier_moves wake false i) f safe s = ground (arith, safe)

module _ {J : Type 0} (h : JobHandler J) where
  Run-Lossless :
      {p q : Pool J} {es : List (Event J)} (run : Run h p es q)
      → Phases p
      → all_safe h run ≡ true
      → Lossless p q
  Run-Lossless here f safe = record {
    same_unsaved = refl;
    same_dropped = refl;
    same_crashed = refl;
  }
  Run-Lossless {p = p} (next {q = q} {r = r} {e = e} run s) f safe =
      let before : Lossless p q = Run-Lossless run f (ground (arith, safe)) in
      let now : Lossless q r =
        step-Lossless h q r e (Run-Phases h run f) (ground (arith, safe)) s in
      record {
        same_unsaved = now.same_unsaved ∙ before.same_unsaved;
        same_dropped = now.same_dropped ∙ before.same_dropped;
        same_crashed = now.same_crashed ∙ before.same_crashed;
      }

  -- From a pool at rest, if the database writes every job that it is handed, no ProcessJob panics and
  -- no goroutine of PrepareRetryableJob starts with a job that is due already in an open pool, then
  -- after any schedule every job that was enqueued is still held by a goroutine or a channel, was
  -- processed, or was written to the database as pending or as failed: none is lost or made up,
  -- neither by a failure, a retry or the shutdown, and at any moment of it.
  pub all_kept :
      (w : J → ℕ) (stable : IsStable h w) {p q : Pool J} {es : List (Event J)} (run : Run h p es q)
      → AtRest p
      → all_safe h run ≡ true
      → held w q + kept w q.ledger ≡ weigh (gained w) es
  all_kept w stable {p} {q} run rest safe =
      let none_lost : Lossless p q = Run-Lossless run rest.phases safe in
      let unsaved : weigh w q.ledger.unsaved ≡ weigh w p.ledger.unsaved =
        ap (weigh w) none_lost.same_unsaved in
      let dropped : weigh w q.ledger.dropped ≡ weigh w p.ledger.dropped =
        ap (weigh w) none_lost.same_dropped in
      let crashed : weigh w q.ledger.crashed ≡ weigh w p.ledger.crashed =
        ap (weigh w) none_lost.same_crashed in
      omega (arith, unsaved, dropped, crashed, total-Run h w stable run, rest.no_jobs w)
