-- ===== src/Pool/Safety/Crash.antt =====
-- A worker whose job panics leaves its loop without closing its stopCh, for good.
use bridge_core.Prelude.{
  ℕ, zero, suc, ◌≡◌, ◌≢◌, refl, Bool, true, false, none, some, List, [], ◌∷◌, ◌++◌, All, get_elem?,
  set, arith, inl, inr, Option-cases,
}
use bridge_core.Types.{JobHandler}
use bridge_core.Pool.Channel.{close}
use bridge_core.Pool.State.{
  WorkerPc, registering, receiving, processing, failing, retrying, stopped, exited, Worker, MainPc,
  sending, closing_worker, halted, Pool,
}
use bridge_core.Pool.Ops.{send_job_to_worker}
use bridge_core.Pool.Retry.{timer_fires, context_done}
use bridge_core.Pool.Main.{Choice, main_step, close_worker, jump, back_to}
use bridge_core.Pool.Workers.{
  Verdict, crashes, take_job, next_attempt, after_failure, finish, worker_step, start_worker,
}
use bridge_core.Pool.System.{
  Event, passes, cancels, enqueues, main_moves, worker_moves, retrier_moves, step, Run, here, next,
}
use bridge_core.Pool.Invariant.Phases.{Phases, IsStopped}
use bridge_core.Pool.Invariant.PhaseSteps.{step-Phases, Run-Phases}
use bridge_core.Pool.Safety.Start.{AtRest}

module _ {J : Type 0} where
  abbrev is_exited : WorkerPc J → Bool
  is_exited exited = true
  is_exited _ = false

  -- The worker at the index has left its loop by a panic.
  abbrev exited_at : ℕ → List (Worker J) → Bool
  exited_at n [] = false
  exited_at zero (k ∷ ks) = is_exited k.pc
  exited_at (suc n) (k ∷ ks) = exited_at n ks

  exited_at-set :
      (n : ℕ) (ks : List (Worker J)) (i : ℕ) (k k' : Worker J)
      → get_elem? ks i ≡ some k
      → (is_exited k.pc ≡ true → is_exited k'.pc ≡ true)
      → exited_at n ks ≡ true
      → exited_at n (set ks i k') ≡ true
  exited_at-set n [] i k k' at keeps e = e
  exited_at-set zero (x ∷ ks) zero k k' at keeps e = ground arith
  exited_at-set zero (x ∷ ks) (suc i) k k' at keeps e = e
  exited_at-set (suc n) (x ∷ ks) zero k k' at keeps e = e
  exited_at-set (suc n) (x ∷ ks) (suc i) k k' at keeps e = exited_at-set n ks i k k' at keeps e

  exited_at-set_self :
      (ks : List (Worker J)) (i : ℕ) (k k' : Worker J)
      → get_elem? ks i ≡ some k
      → is_exited k'.pc ≡ true
      → exited_at i (set ks i k') ≡ true
  exited_at-set_self [] i k k' at e = ground arith
  exited_at-set_self (x ∷ ks) zero k k' at e = e
  exited_at-set_self (x ∷ ks) (suc i) k k' at e = exited_at-set_self ks i k k' at e

  exited_at-All : (n : ℕ) (ks : List (Worker J)) → All IsStopped ks → exited_at n ks ≡ false
  exited_at-All n [] a = refl
  exited_at-All zero (k ∷ ks) a = ground arith
  exited_at-All (suc n) (k ∷ ks) a = exited_at-All n ks a.1

-- The worker at `n` is gone when the worker `k` at `i` moves.
module _ {J : Type 0} (n : ℕ) (p q : Pool J) (gone : exited_at n p.workers ≡ true) (i : ℕ)
    (k : Worker J) (at : get_elem? p.workers i ≡ some k) where
  abbrev move :
      (k' : Worker J)
      → (is_exited k.pc ≡ true → is_exited k'.pc ≡ true)
      → exited_at n (set p.workers i k') ≡ true
  move k' keeps = exited_at-set n p.workers i k k' at keeps gone

  goes :
      (pc : WorkerPc J)
      → is_exited k.pc ≡ false
      → exited_at n (set p.workers i (record k { pc = pc })) ≡ true
  goes pc alive = move (record k { pc = pc }) (λ e. cc)

  take_job-exited :
      (items : List J)
      → k.worker_chan.items ≡ items
      → is_exited k.pc ≡ false
      → take_job p i k ≡ some q
      → exited_at n q.workers ≡ true
  unfolding take_job
  take_job-exited [] has alive e = ground (arith, goes stopped)
  take_job-exited (job ∷ rest) has alive e = ground (
    arith,
    move (record k { worker_chan = record (k.worker_chan) { items = rest }; pc = processing job }),
  )

  worker_step-exited :
      (h : JobHandler J) (v : Verdict) (saved : Bool) (pc : WorkerPc J)
      → k.pc ≡ pc
      → worker_step h v saved p i k pc ≡ some q
      → exited_at n q.workers ≡ true
  unfolding worker_step after_failure
  worker_step-exited h v saved registering now e = ground (arith, goes receiving, goes exited)
  worker_step-exited h v saved receiving now e =
      take_job-exited k.worker_chan.items refl (ground arith) e
  worker_step-exited h v saved (processing job) now e = ground (
    arith,
    goes registering,
    goes exited,
    goes (failing job),
    goes (retrying (next_attempt h p.now job)),
  )
  worker_step-exited h v saved (failing job) now e = ground (arith, goes registering, goes exited)
  worker_step-exited h v saved (retrying job) now e = ground (arith, goes registering)
  worker_step-exited h v saved stopped now e = cc
  worker_step-exited h v saved exited now e = cc

module _ {J : Type 0} (n : ℕ) (p q : Pool J) (gone : exited_at n p.workers ≡ true) where
  start_worker-exited :
      (h : JobHandler J) (v : Verdict) (saved : Bool) (i : ℕ)
      → start_worker h v saved i p ≡ some q
      → exited_at n q.workers ≡ true
  unfolding start_worker
  start_worker-exited h v saved i e = elim (Option-cases (get_elem? p.workers i)) [
    | inl out ↦ ground (arith, out)
    | inr (k, at) ↦
        worker_step-exited n p q gone i k at h v saved k.pc refl (rw (at, start_worker) at e)
  ]

  send_job_to_worker-exited :
      (saved : Bool) (i : ℕ) (job : J)
      → send_job_to_worker saved i job p ≡ some q
      → exited_at n q.workers ≡ true
  unfolding send_job_to_worker
  send_job_to_worker-exited saved i job e = elim (Option-cases (get_elem? p.workers i)) [
    | inl out ↦ ground (arith, out)
    | inr (k, at) ↦ ground (
      arith,
      at,
      move n p q gone i k at (record k {
        worker_chan = record (k.worker_chan) { items = k.worker_chan.items ++ job ∷ [] };
      }),
    )
  ]

  close_worker-exited : (k : ℕ) → exited_at n (close_worker k p).workers ≡ true
  unfolding close_worker
  close_worker-exited k = elim (Option-cases (get_elem? p.workers k)) [
    | inl out ↦ ground (arith, out)
    | inr (v, at) ↦
        ground (arith, at, move n p q gone k v at (record v { worker_chan = close v.worker_chan }))
  ]

module _ {J : Type 0} (n : ℕ) (p q : Pool J) (gone : exited_at n p.workers ≡ true) where
  main_step-exited :
      (c : Choice) (saved : Bool) (m : MainPc J)
      → main_step c saved p m ≡ some q
      → exited_at n q.workers ≡ true
  unfolding main_step
  main_step-exited c saved (sending last i job) e =
      send_job_to_worker-exited n (jump (back_to last) p) q gone saved i job e
  main_step-exited c saved (closing_worker k) e = ground (arith, close_worker-exited n p q gone k)
  main_step-exited c saved m e = ground arith

  step-exited :
      (h : JobHandler J) (e : Event J) → step h e p ≡ some q → exited_at n q.workers ≡ true
  unfolding step
  step-exited h (passes k) e = ground arith
  step-exited h cancels e = ground arith
  step-exited h (enqueues saved none) e = ground arith
  step-exited h (enqueues saved (some job)) e = ground arith
  step-exited h (main_moves c saved) e = main_step-exited c saved p.main e
  step-exited h (worker_moves v saved i) e = start_worker-exited n p q gone h v saved i e
  step-exited h (retrier_moves timer_fires saved i) e = ground arith
  step-exited h (retrier_moves context_done saved i) e = ground arith

module _ {J : Type 0} (h : JobHandler J) where
  Run-exited :
      (n : ℕ) {p q : Pool J} {es : List (Event J)}
      → Run h p es q
      → exited_at n p.workers ≡ true
      → exited_at n q.workers ≡ true
  Run-exited n here gone = gone
  Run-exited n (next {q = q} {r = r} {e = e} run st) gone =
      step-exited n q r (Run-exited n run gone) h e st

  crash-exited :
      (p t : Pool J) (i : ℕ) (k : Worker J) (job : J) (saved : Bool)
      → get_elem? p.workers i ≡ some k
      → k.pc ≡ processing job
      → step h (worker_moves crashes saved i) p ≡ some t
      → (exited_at i t.workers ≡ true) × (t.ledger.crashed ≡ job ∷ p.ledger.crashed)
  unfolding step start_worker worker_step finish
  crash-exited p t i k job saved at now st =
      ground (arith, at, now, exited_at-set_self p.workers i k (record k { pc = exited }) at refl)

  -- If the processing of a job panics, the job is lost and its worker is gone for good: under no
  -- schedule does Start return from then on, since the shutdown waits for that worker's stopCh.
  pub crash-never_halts :
      {p q t r : Pool J} {es fs : List (Event J)} (i : ℕ) (k : Worker J) (job : J) (saved : Bool)
      → AtRest p
      → Run h p es q
      → get_elem? q.workers i ≡ some k
      → k.pc ≡ processing job
      → step h (worker_moves crashes saved i) q ≡ some t
      → Run h t fs r
      → (t.ledger.crashed ≡ job ∷ q.ledger.crashed) × (r.main ≢ halted)
  crash-never_halts {q = q} {t = t} {r = r} i k job saved rest run at now st later =
      let (gone, lost) = crash-exited q t i k job saved at now st in
      let g : Phases r =
        Run-Phases h later
          (step-Phases h (worker_moves crashes saved i) q t st (Run-Phases h run rest.phases)) in
      (
        lost,
        λ over.
            let left = Run-exited i later gone in
            let stays = exited_at-All i r.workers (g.all_stopped (rw over (omega arith))) in cc,
      )
