-- ===== src/Pool/Conservation/Moves.antt =====
-- Each operation of the workers keeps the total weight; Enqueue adds its job.
use bridge_core.Prelude.{
  ℕ, ◌+◌, ◌*◌, ◌≡◌, refl, ◌++◌, List, inl, inr, Option-cases, Bool, Option, none, some, [], ◌∷◌,
  get_elem?, set, weigh, weigh-append, weigh-set, arith,
}
use bridge_core.Types.{JobHandler}
use bridge_core.Pool.State.{
  WorkerPc, registering, receiving, processing, failing, retrying, stopped, exited, Worker, Pool,
}
use bridge_core.Pool.Ops.{enqueue, send_job_to_worker}
use bridge_core.Pool.Workers.{
  Verdict, succeeds, fails, crashes, register, take_job, send_failed, send_retry, after_failure,
  finish, worker_step, start_worker,
}
use bridge_core.Pool.Conservation.Weights.{IsStable, weigh_worker, weigh_option, weigh_pc, total}

module _ {J : Type 0} (w : J → ℕ) where
  pub total-enqueue :
      (saved : Bool) (job : Option J) (p q : Pool J)
      → enqueue saved job p ≡ some q
      → total w q ≡ total w p + weigh_option w job
  unfolding enqueue
  total-enqueue saved none p q e = ground arith
  total-enqueue saved (some job) p q e = ground (arith, weigh-append w p.job_chan.items (job ∷ []))

-- A step of the worker `k` at index `i`.
module _ {J : Type 0} (w : J → ℕ) (p q : Pool J) (i : ℕ) (k : Worker J)
    (at : get_elem? p.workers i ≡ some k) where
  abbrev swap :
      (k' : Worker J)
      → weigh (weigh_worker w) (set p.workers i k') + weigh_worker w k
        ≡ weigh (weigh_worker w) p.workers + weigh_worker w k'
  swap k' = weigh-set (weigh_worker w) p.workers i k k' at

  total-register : weigh_pc w k.pc ≡ 0 → register p i k ≡ some q → total w q ≡ total w p
  unfolding register
  total-register z e =
      ground (arith, swap (record k { pc = receiving }), swap (record k { pc = exited }))

  take_job-items :
      (items : List J)
      → k.worker_chan.items ≡ items
      → weigh_pc w k.pc ≡ 0
      → take_job p i k ≡ some q
      → total w q ≡ total w p
  unfolding take_job
  take_job-items [] has z e = ground (arith, swap (record k { pc = stopped }))
  take_job-items (job ∷ rest) has z e = ground (
    arith,
    swap (record k { worker_chan = record (k.worker_chan) { items = rest }; pc = processing job }),
  )

  total-take_job : weigh_pc w k.pc ≡ 0 → take_job p i k ≡ some q → total w q ≡ total w p
  total-take_job = take_job-items k.worker_chan.items refl

  send_job_to_worker-at :
      (saved : Bool) (job : J)
      → send_job_to_worker saved i job p ≡ some q
      → total w q ≡ total w p + w job
  unfolding send_job_to_worker
  send_job_to_worker-at saved job e = ground (
    arith,
    at,
    weigh-append w k.worker_chan.items (job ∷ []),
    swap (record k {
      worker_chan = record (k.worker_chan) { items = k.worker_chan.items ++ job ∷ [] };
    }),
  )

  total-send_failed :
      (job : J) → weigh_pc w k.pc ≡ w job → send_failed p i k job ≡ some q → total w q ≡ total w p
  unfolding send_failed
  total-send_failed job z e = ground (
    arith,
    swap (record k { pc = registering }),
    swap (record k { pc = exited }),
    weigh-append w p.failed_job_chan.items (job ∷ []),
  )

  total-send_retry :
      (saved : Bool) (job : J)
      → weigh_pc w k.pc ≡ w job
      → send_retry saved p i k job ≡ some q
      → total w q ≡ total w p
  unfolding send_retry
  total-send_retry saved job z e = ground (
    arith,
    swap (record k { pc = registering }),
    weigh-append w p.retry_job_chan.items (job ∷ []),
  )

  module _ (h : JobHandler J) (stable : IsStable h w) where
    weigh_pc-after_failure : (now : ℕ) (job : J) → weigh_pc w (after_failure h now job) ≡ w job
    unfolding after_failure
    weigh_pc-after_failure now job = ground (
      arith,
      stable.keeps-increase job,
      stable.keeps-update
          (now
            + h.get_retry_count (h.increase_retry_count job)
              * h.get_back_off (h.increase_retry_count job))
          (h.increase_retry_count job),
    )

    total-finish :
        (v : Verdict) (job : J)
        → weigh_pc w k.pc ≡ w job
        → some (finish h v p i k job) ≡ some q
        → total w q ≡ total w p
    unfolding finish
    total-finish succeeds job z e = ground (arith, swap (record k { pc = registering }))
    total-finish fails job z e = ground (
      arith,
      swap (record k { pc = after_failure h p.now job }),
      weigh_pc-after_failure p.now job,
    )
    total-finish crashes job z e = ground (arith, swap (record k { pc = exited }))

    total-worker_step :
        (v : Verdict) (saved : Bool) (pc : WorkerPc J)
        → k.pc ≡ pc
        → worker_step h v saved p i k pc ≡ some q
        → total w q ≡ total w p
    unfolding worker_step
    total-worker_step v saved registering has e = total-register (ground arith) e
    total-worker_step v saved receiving has e = total-take_job (ground arith) e
    total-worker_step v saved (processing job) has e = total-finish v job (ground arith) e
    total-worker_step v saved (failing job) has e = total-send_failed job (ground arith) e
    total-worker_step v saved (retrying job) has e = total-send_retry saved job (ground arith) e
    total-worker_step v saved stopped has e = ground arith
    total-worker_step v saved exited has e = ground arith

module _ {J : Type 0} (w : J → ℕ) (p q : Pool J) (i : ℕ) where
  pub total-send_job_to_worker :
      (saved : Bool) (job : J)
      → send_job_to_worker saved i job p ≡ some q
      → total w q ≡ total w p + w job
  unfolding send_job_to_worker
  total-send_job_to_worker saved job e = elim (Option-cases (get_elem? p.workers i)) [
    | inl gone ↦ ground (arith, gone)
    | inr (k, at) ↦ send_job_to_worker-at w p q i k at saved job e
  ]

  pub total-start_worker :
      (h : JobHandler J) (stable : IsStable h w) (v : Verdict) (saved : Bool)
      → start_worker h v saved i p ≡ some q
      → total w q ≡ total w p
  unfolding start_worker
  total-start_worker h stable v saved e = elim (Option-cases (get_elem? p.workers i)) [
    | inl gone ↦ ground (arith, gone)
    | inr (k, at) ↦
        total-worker_step w p q i k at h stable v saved k.pc refl (rw (at, start_worker) at e)
  ]
