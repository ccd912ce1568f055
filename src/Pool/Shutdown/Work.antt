-- ===== src/Pool/Shutdown/Work.antt =====
-- The steps that are left to a pool that shuts down, and that each of its own steps uses one up.
use bridge_core.Pool.Invariant.Phases.{stage}
use bridge_core.Pool.Shutdown.Calm.{is_calm}
use bridge_core.Types.{JobHandler}
use bridge_core.Pool.Workers.{take_job, worker_step, succeeds, register, finish}
use bridge_core.Pool.State.{
  WorkerPc, Worker, Pool, waiting_retries, waiting_worker, closing_worker, MainPc, closing_channels,
  saving_failures, saving_retries, processing, dispatching, receiving, sending, stopped,
  registering, failing, selecting, retrying, closing, draining, exited, halted,
}
use bridge_core.Prelude.{
  ◌≡◌, ℕ, length-set, inl, ◌+◌, ◌∷◌, ◌*◌, true, Bool-cases, List, arith, inr, get_elem?, weigh-set,
  some, length, false, refl, ◌-◌, ◌<◌, Bool, weigh, set, [], ◌≤◌,
}
use bridge_core.Pool.System.{Event, main_moves, worker_moves}

module _ {J : Type 0} where
  -- The steps of the main loop and of the workers, whose jobs succeed.
  abbrev pub IsOwn : Event J → Type 0
  IsOwn (main_moves v saved) = Unit {0}
  IsOwn (worker_moves v saved i) = v ≡ succeeds
  IsOwn _ = ⊥

  abbrev pub pc_work : WorkerPc J → ℕ
  pc_work registering = 2
  pc_work receiving = 1
  pc_work (processing job) = 3
  pc_work _ = 0

  abbrev pub worker_work : Worker J → ℕ
  worker_work k = pc_work k.pc + 3 * length k.worker_chan.items

  abbrev pub main_work : ℕ → MainPc J → ℕ
  main_work n selecting = 0
  main_work n (dispatching last job) = 11 + 2 * n
  main_work n (sending last i job) = 10 + 2 * n
  main_work n closing = 7 + 2 * n
  main_work n draining = 6 + 2 * n
  main_work n (closing_worker k) = 5 + 2 * (n - k)
  main_work n (waiting_worker k) = 4 + 2 * (n - k)
  main_work n closing_channels = 4
  main_work n saving_retries = 3
  main_work n saving_failures = 2
  main_work n waiting_retries = 1
  main_work n halted = 0

  abbrev pub work : Pool J → ℕ
  work p =
      main_work (length p.workers) p.main
      + weigh worker_work p.workers
      + 6 * length p.job_chan.items

  -- A step of the shutdown that leaves less work.
  abbrev pub UsesUp : Pool J → Pool J → Type 0
  UsesUp p q = (work q < work p) × (1 ≤ stage q.main)

module _ {J : Type 0} (p q : Pool J) where
  moved_less :
      (i : ℕ) (k k' : Worker J)
      → get_elem? p.workers i ≡ some k
      → q.workers ≡ set p.workers i k'
      → q.main ≡ p.main
      → q.job_chan ≡ p.job_chan
      → worker_work k' < worker_work k
      → work q < work p
  moved_less i k k' at workers_are main_is jobs_are less =
      let weight = weigh-set worker_work p.workers i k k' at in
      rw (workers_are, main_is, jobs_are, length-set p.workers i k') (omega (arith, weight, less))

  module _ (h : JobHandler J) (saved : Bool) (i : ℕ) (k : Worker J)
      (at : get_elem? p.workers i ≡ some k) where
    take_job-work :
        (items : List J)
        → k.worker_chan.items ≡ items
        → k.pc ≡ receiving
        → take_job p i k ≡ some q
        → work q < work p
    unfolding take_job
    take_job-work [] has now e = elim (Bool-cases k.worker_chan.closed) [
      | inr is_open ↦ ground (arith, has, is_open, e)
      | inl shut ↦
          moved_less i k (record k { pc = stopped }) at (ground (arith, has, shut, e))
            (ground (arith, has, shut, e)) (ground (arith, has, shut, e))
            (rw (now, has) (omega arith))
    ]
    take_job-work (job ∷ rest) has now e =
        moved_less i k
          (record k { worker_chan = record (k.worker_chan) { items = rest }; pc = processing job })
          at (ground (arith, has, e)) (ground (arith, has, e)) (ground (arith, has, e))
          (rw (now, has) (omega arith))

    pub worker_step-work :
        (pc : WorkerPc J)
        → is_calm pc ≡ true
        → (k.pc ≡ registering → p.queue.closed ≡ false)
        → k.pc ≡ pc
        → worker_step h succeeds saved p i k pc ≡ some q
        → work q < work p
    unfolding worker_step register finish
    worker_step-work registering calm opens now e =
        let is_open = opens now in
        moved_less i k (record k { pc = receiving }) at (ground (arith, is_open, e))
          (ground (arith, is_open, e)) (ground (arith, is_open, e)) (rw now (omega arith))
    worker_step-work receiving calm opens now e = take_job-work k.worker_chan.items refl now e
    worker_step-work (processing job) calm opens now e =
        moved_less i k (record k { pc = registering }) at (ground (arith, e)) (ground (arith, e))
          (ground (arith, e)) (rw now (omega arith))
    worker_step-work (failing job) calm opens now e = cc
    worker_step-work (retrying job) calm opens now e = cc
    worker_step-work stopped calm opens now e = cc
    worker_step-work exited calm opens now e = cc
