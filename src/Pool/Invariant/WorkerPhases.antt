-- ===== src/Pool/Invariant/WorkerPhases.antt =====
-- The steps of the workers keep the phases of the shutdown.
use bridge_core.Prelude.{
  ℕ, ◌≡◌, refl, Bool, some, List, [], ◌∷◌, get_elem?, All-set, inl, inr, Option-cases, arith,
}
use bridge_core.Types.{JobHandler}
use bridge_core.Pool.State.{
  WorkerPc, registering, receiving, processing, failing, retrying, stopped, exited, Worker, Pool,
}
use bridge_core.Pool.Workers.{
  Verdict, succeeds, fails, crashes, register, take_job, send_failed, send_retry, next_attempt,
  finish, worker_step, start_worker, after_failure, set_worker,
}
use bridge_core.Pool.Invariant.Phases.{
  finished, IsDrained, Phases, FirstStopped-set, All-IsStopped-set,
}

module _ {J : Type 0} where
  -- A worker that has not stopped moves on.
  pub set_worker-Phases :
      (p : Pool J) (i : ℕ) (k k' : Worker J)
      → get_elem? p.workers i ≡ some k
      → (k.pc ≡ stopped → k'.pc ≡ stopped)
      → IsDrained k'
      → Phases p
      → Phases (set_worker p i k')
  set_worker-Phases p i k k' at keeps d f = record {
    jobs_open = f.jobs_open;
    jobs_shut = f.jobs_shut;
    jobs_drained = f.jobs_drained;
    retry_open = f.retry_open;
    failed_open = f.failed_open;
    queue_open = f.queue_open;
    retry_shut = f.retry_shut;
    failed_shut = f.failed_shut;
    retry_drained = f.retry_drained;
    failed_drained = f.failed_drained;
    counted_down = f.counted_down;
    drained = All-set IsDrained p.workers i k' f.drained d;
    first_stopped = FirstStopped-set (finished p.main) p.workers i k k' at keeps f.first_stopped;
    all_stopped = λ s. All-IsStopped-set p.workers i k k' at keeps (f.all_stopped s);
  }

module _ {J : Type 0} (p q : Pool J) (f : Phases p) (i : ℕ) (k : Worker J)
    (at : get_elem? p.workers i ≡ some k) where
  register-Phases : k.pc ≡ registering → register p i k ≡ some q → Phases q
  unfolding register
  register-Phases now e = ground (
    arith,
    set_worker-Phases p i k (record k { pc = receiving }) at,
    set_worker-Phases p i k (record k { pc = exited }) at,
  )

  take_job-Phases :
      (items : List J)
      → k.worker_chan.items ≡ items
      → k.pc ≡ receiving
      → take_job p i k ≡ some q
      → Phases q
  unfolding take_job
  take_job-Phases [] has now e =
      ground (arith, set_worker-Phases p i k (record k { pc = stopped }) at)
  take_job-Phases (job ∷ rest) has now e = ground (
    arith,
    set_worker-Phases p i k
        (record k { worker_chan = record (k.worker_chan) { items = rest }; pc = processing job })
        at,
  )

  send_failed-Phases : (job : J) → k.pc ≡ failing job → send_failed p i k job ≡ some q → Phases q
  unfolding send_failed
  send_failed-Phases job now e = ground (
    arith,
    set_worker-Phases p i k (record k { pc = registering }) at,
    set_worker-Phases p i k (record k { pc = exited }) at,
  )

  send_retry-Phases :
      (saved : Bool) (job : J)
      → k.pc ≡ retrying job
      → send_retry saved p i k job ≡ some q
      → Phases q
  unfolding send_retry
  send_retry-Phases saved job now e =
      ground (arith, set_worker-Phases p i k (record k { pc = registering }) at)

  finish-Phases :
      (h : JobHandler J) (v : Verdict) (job : J)
      → k.pc ≡ processing job
      → some (finish h v p i k job) ≡ some q
      → Phases q
  unfolding finish after_failure
  finish-Phases h succeeds job now e =
      ground (arith, set_worker-Phases p i k (record k { pc = registering }) at)
  finish-Phases h fails job now e = ground (
    arith,
    set_worker-Phases p i k (record k { pc = failing job }) at,
    set_worker-Phases p i k (record k { pc = retrying (next_attempt h p.now job) }) at,
  )
  finish-Phases h crashes job now e =
      ground (arith, set_worker-Phases p i k (record k { pc = exited }) at)

  worker_step-Phases :
      (h : JobHandler J) (v : Verdict) (saved : Bool) (pc : WorkerPc J)
      → k.pc ≡ pc
      → worker_step h v saved p i k pc ≡ some q
      → Phases q
  unfolding worker_step
  worker_step-Phases h v saved registering now e = register-Phases now e
  worker_step-Phases h v saved receiving now e = take_job-Phases k.worker_chan.items refl now e
  worker_step-Phases h v saved (processing job) now e = finish-Phases h v job now e
  worker_step-Phases h v saved (failing job) now e = send_failed-Phases job now e
  worker_step-Phases h v saved (retrying job) now e = send_retry-Phases saved job now e
  worker_step-Phases h v saved stopped now e = cc
  worker_step-Phases h v saved exited now e = cc

pub start_worker-Phases :
    {J : Type 0} (h : JobHandler J) (p q : Pool J) (v : Verdict) (saved : Bool) (i : ℕ)
    → start_worker h v saved i p ≡ some q
    → Phases p
    → Phases q
unfolding start_worker
start_worker-Phases h p q v saved i e f = elim (Option-cases (get_elem? p.workers i)) [
  | inl gone ↦ ground (arith, gone)
  | inr (k, at) ↦ worker_step-Phases p q f i k at h v saved k.pc refl (rw (at, start_worker) at e)
]
