-- ===== src/Pool/Safety/Shutdown.antt =====
-- The end of a shutdown: nothing is left in the pool, and every job is accounted for.
use bridge_core.Prelude.{
  ℕ, ◌≡◌, refl, Bool, true, false, some, List, [], ◌∷◌, All, All-get_elem?, get_elem?, length,
  weigh, arith, ◌≤◌,
}
use native.Mathlib.Decide.{dec_lt}
use bridge_core.Types.{JobHandler}
use bridge_core.Pool.State.{
  WorkerPc, failing, retrying, stopped, registering, Worker, Retrier, halted, Pool,
}
use bridge_core.Pool.Ops.{save_job, enqueue}
use bridge_core.Pool.System.{Event, Run}
use bridge_core.Pool.Conservation.Weights.{
  IsStable, weigh_worker, weigh_retrier, held, settled, gained,
}
use bridge_core.Pool.Conservation.Steps.{total-Run}
use bridge_core.Pool.Invariant.Counts.{Surplus, Run-Surplus}
use bridge_core.Pool.Invariant.Phases.{stage, IsStopped, IsDrained, Phases}
use bridge_core.Pool.Invariant.PhaseSteps.{Run-Phases}
use bridge_core.Pool.Safety.Start.{AtRest}

module _ {J : Type 0} (w : J → ℕ) where
  stopped-light :
      (ks : List (Worker J)) → All IsStopped ks → All IsDrained ks → weigh (weigh_worker w) ks ≡ 0
  stopped-light [] a d = refl
  stopped-light (k ∷ ks) a d = ground (arith, stopped-light ks a.1 d.1)

  none-light : (rs : List (Retrier J)) → length rs ≡ 0 → weigh (weigh_retrier w) rs ≡ 0
  none-light [] e = refl
  none-light (r ∷ rs) e = absurd (omega arith)

  halted-held : (p : Pool J) → Phases p → Surplus 0 p → p.main ≡ halted → held w p ≡ 0
  halted-held p f s e = ground (
    arith,
    stopped-light p.workers (f.all_stopped (rw e (omega arith))) f.drained,
    none-light p.retriers (omega (arith, f.counted_down (rw e (omega arith)))),
  )

module _ {J : Type 0} (h : JobHandler J) (w : J → ℕ) (stable : IsStable h w) where
  -- When Start has returned, whatever the schedule was, the pool holds no job any more: the jobs that
  -- were enqueued, weighed by anything that the pool does not change, are those processed, written as
  -- pending or failed, lost by a failed write, dropped before a retry or lost in a panic.
  pub halted-accounts :
      {p q : Pool J} {es : List (Event J)}
      → AtRest p
      → Run h p es q
      → q.main ≡ halted
      → (held w q ≡ 0) × (settled w q.ledger ≡ weigh (gained w) es)
  halted-accounts {p} {q} rest run e =
      let empty =
        halted-held w q (Run-Phases h run rest.phases) (Run-Surplus h 0 run rest.surplus) e in
      (empty, omega (arith, empty, total-Run h w stable run, rest.no_jobs w))

-- The next step of a worker sends on one of the pool's channels.
abbrev pub is_sender : {J : Type 0} → WorkerPc J → Bool
is_sender registering = true
is_sender (failing job) = true
is_sender (retrying job) = true
is_sender _ = false

module _ {J : Type 0} (h : JobHandler J) where
  -- A worker that is about to send on the queue, the failed or the retry channel finds all three
  -- open, so that its send never panics: Start closes them only after every worker has stopped.
  pub sender-open :
      {p q : Pool J} {es : List (Event J)} (i : ℕ) (k : Worker J)
      → AtRest p
      → Run h p es q
      → get_elem? q.workers i ≡ some k
      → is_sender k.pc ≡ true
      → (q.queue.closed ≡ false)
        × (q.failed_job_chan.closed ≡ false)
        × (q.retry_job_chan.closed ≡ false)
  sender-open {q = q} i k rest run at sends =
      let f : Phases q = Run-Phases h run rest.phases in
      elim (dec_lt (stage q.main) 5) [
        | yes early ↦ (f.queue_open early, f.failed_open early, f.retry_open early)
        | no late ↦
            let over : k.pc ≡ stopped =
              All-get_elem? IsStopped q.workers i k (f.all_stopped (omega arith)) at in
            ground (arith, over)
      ]

  -- A job that is enqueued after the channel of new jobs was closed, at any time up to the end of the
  -- shutdown and beyond, is handed to the database, and nothing else changes.
  pub enqueue-late :
      {p q : Pool J} {es : List (Event J)} (saved : Bool) (job : J)
      → AtRest p
      → Run h p es q
      → 2 ≤ stage q.main
      → enqueue saved (some job) q ≡ some (save_job saved job q)
  unfolding enqueue
  enqueue-late {q = q} saved job rest run late =
      ground (arith, (Run-Phases h run rest.phases).jobs_shut late)
