-- ===== src/Pool/Shutdown/WorkerCalm.antt =====
-- The steps of the workers keep a pool whose jobs succeed calm.
use bridge_core.Pool.Invariant.Phases.{Phases, IsStopped, stage}
use bridge_core.Types.{JobHandler}
use bridge_core.Pool.Shutdown.Calm.{Quiet, Calm, IsCalm, ClosedAt-set, Calm-set}
use bridge_core.Pool.Workers.{take_job, worker_step, register, finish, succeeds}
use bridge_core.Pool.State.{
  Pool, Worker, WorkerPc, registering, receiving, processing, failing, retrying, stopped, exited,
}
use bridge_core.Prelude.{
  ℕ, Bool, arith, false, inr, get_elem?, inl, Bool-cases, ◌≡◌, some, ◌∙◌, refl, sym, ◌≤◌,
  All-get_elem?, set, List, ◌∷◌, [],
}

module _ {J : Type 0} (p q : Pool J) (c : Calm p) (f : Phases p) (i : ℕ) (k : Worker J)
    (at : get_elem? p.workers i ≡ some k) where
  IsCalm-here : IsCalm k
  IsCalm-here = All-get_elem? IsCalm p.workers i k c.all_calm at

  -- A worker that has not stopped still finds the queue open.
  pub open_for : k.pc ≡ registering → p.queue.closed ≡ false
  open_for now = elim (Bool-cases p.queue.closed) [
    | inr is_open ↦ is_open
    | inl shut ↦
        let late : 4 ≤ stage p.main = ground (arith, f.queue_open, shut) in
        let over : IsStopped k = All-get_elem? IsStopped p.workers i k (f.all_stopped late) at in cc
  ]

  moved_Calm :
      (k' : Worker J)
      → q.workers ≡ set p.workers i k'
      → q.main ≡ p.main
      → Quiet p q
      → IsCalm k'
      → k'.worker_chan.closed ≡ k.worker_chan.closed
      → Calm q
  moved_Calm k' workers_are main_is s calm keeps =
      Calm-set p q s c i k' workers_are calm (λ j waits.
        ClosedAt-set p.workers i j k k' at keeps (c.waits_closed j (sym main_is ∙ waits)))

  take_job-Calm : (items : List J) → k.worker_chan.items ≡ items → take_job p i k ≡ some q → Calm q
  unfolding take_job
  take_job-Calm [] has e = elim (Bool-cases k.worker_chan.closed) [
    | inr is_open ↦ ground (arith, has, is_open, e)
    | inl shut ↦
        moved_Calm (record k { pc = stopped }) (ground (arith, has, shut, e))
          (ground (arith, has, shut, e)) (ground (arith, has, shut, e)) (refl, IsCalm-here.1) refl
  ]
  take_job-Calm (job ∷ rest) has e =
      moved_Calm
        (record k { worker_chan = record (k.worker_chan) { items = rest }; pc = processing job })
        (ground (arith, has, e)) (ground (arith, has, e)) (ground (arith, has, e))
        (refl, IsCalm-here.1) refl

  pub worker_step-Calm :
      (h : JobHandler J) (saved : Bool) (pc : WorkerPc J)
      → k.pc ≡ pc
      → worker_step h succeeds saved p i k pc ≡ some q
      → Calm q
  unfolding worker_step register finish
  worker_step-Calm h saved registering now e =
      let is_open = open_for now in
      moved_Calm (record k { pc = receiving }) (ground (arith, is_open, e))
        (ground (arith, is_open, e)) (ground (arith, is_open, e)) (refl, IsCalm-here.1) refl
  worker_step-Calm h saved receiving now e = take_job-Calm k.worker_chan.items refl e
  worker_step-Calm h saved (processing job) now e =
      moved_Calm (record k { pc = registering }) (ground (arith, e)) (ground (arith, e))
        (ground (arith, e)) (refl, IsCalm-here.1) refl
  worker_step-Calm h saved (failing job) now e = ground (arith, now, IsCalm-here)
  worker_step-Calm h saved (retrying job) now e = ground (arith, now, IsCalm-here)
  worker_step-Calm h saved stopped now e = cc
  worker_step-Calm h saved exited now e = cc
