-- ===== src/Pool/Safety/HeldUp.antt =====
-- A worker that waits for room in a channel while the shutdown waits for that worker.
use bridge_core.Pool.Workers.{worker_step, Verdict, start_worker}
use bridge_core.Pool.Main.{main_step, await_worker, is_stopped}
use bridge_core.Pool.State.{
  Pool, Worker, WorkerPc, waiting_worker, processing, failing, retrying, registering, receiving,
  stopped, exited,
}
use bridge_core.Prelude.{
  ℕ, ◌≡◌, ◌∙◌, refl, Bool, true, false, none, some, List, get_elem?, arith, inl, inr, ◌==◌,
  Bool-cases, Option-cases,
}
use bridge_core.Types.{JobHandler}
use bridge_core.Pool.System.{
  Event, passes, cancels, enqueues, main_moves, worker_moves, retrier_moves, step, Run, here, next,
}
use bridge_core.Pool.Safety.Jam.{
  Apart, Keeps, IsBlocked, prepare_retryable_job-Apart, enqueue-Apart, Apart-is_blocked,
  start_worker-Keeps, worker_step-others, blocked-none, is_blocked,
}

module _ {J : Type 0} where
  -- The shutdown waits for the worker at an index, which is blocked.
  pub record HeldUp (p : Pool J) (i : ℕ) : Type 0 where
    pub waits : p.main ≡ waiting_worker i
    pub worker : Worker J
    pub is_at : get_elem? p.workers i ≡ some worker
    pub blocked : IsBlocked p worker

  Keeps-is_blocked :
      (p q : Pool J)
      → Keeps p q
      → (pc : WorkerPc J) → is_blocked p pc ≡ true
      → is_blocked q pc ≡ true
  Keeps-is_blocked p q s registering b = s.queue_full b
  Keeps-is_blocked p q s receiving b = cc
  Keeps-is_blocked p q s (processing job) b = cc
  Keeps-is_blocked p q s (failing job) b = s.failed_full b
  Keeps-is_blocked p q s (retrying job) b = s.retry_full b
  Keeps-is_blocked p q s stopped b = cc
  Keeps-is_blocked p q s exited b = refl

  Keeps-HeldUp :
      (p q : Pool J) (i : ℕ) (o : HeldUp p i)
      → Keeps p q
      → get_elem? q.workers i ≡ some (o.worker)
      → HeldUp q i
  Keeps-HeldUp p q i o s at = record {
    waits = s.main_is ∙ o.waits;
    worker = o.worker;
    is_at = at;
    blocked = Keeps-is_blocked p q s o.worker.pc o.blocked;
  }

  Apart-HeldUp : (p q : Pool J) (i : ℕ) → Apart p q → HeldUp p i → HeldUp q i
  Apart-HeldUp p q i a o = record {
    waits = a.same_main ∙ o.waits;
    worker = o.worker;
    is_at = rw (a.same_workers) (o.is_at);
    blocked = Apart-is_blocked p q a o.worker.pc ∙ o.blocked;
  }

module _ {J : Type 0} (h : JobHandler J) (p q : Pool J) (i : ℕ) (o : HeldUp p i) where
  others_move :
      (v : Verdict) (saved : Bool) (n : ℕ)
      → start_worker h v saved n p ≡ some q
      → get_elem? q.workers i ≡ some (o.worker)
  unfolding start_worker
  others_move v saved n e = elim (Option-cases (get_elem? p.workers n)) [
    | inl gone ↦ ground (arith, gone, e)
    | inr (k, at) ↦
        let moved : worker_step h v saved p n k k.pc ≡ some q = rw (at, start_worker) at e in
        elim (Bool-cases (n == i)) [
          | inl same ↦
              let here : k ≡ o.worker = ground (arith, at, same, o.is_at) in
              let stuck : worker_step h v saved p n k k.pc ≡ none =
                blocked-none h v saved p q n k k.pc (rw here (o.blocked)) in
              cc
          | inr other ↦ worker_step-others h v saved p q n k k.pc moved i other ∙ o.is_at
        ]
  ]

  step-HeldUp : (e : Event J) → step h e p ≡ some q → HeldUp q i
  unfolding step main_step await_worker
  step-HeldUp (passes n) e = Apart-HeldUp p q i (ground (arith, e)) o
  step-HeldUp cancels e = Apart-HeldUp p q i (ground (arith, e)) o
  step-HeldUp (enqueues saved other) e = Apart-HeldUp p q i (enqueue-Apart h p q saved other e) o
  step-HeldUp (main_moves c saved) e =
      let unstopped : is_stopped o.worker.pc ≡ false = ground (arith, o.blocked) in
      let stuck : main_step c saved p p.main ≡ none =
        rw (o.waits) (ground (arith, unstopped, o.is_at)) in
      cc
  step-HeldUp (worker_moves v saved n) e =
      Keeps-HeldUp p q i o (start_worker-Keeps h p q v saved n e) (others_move v saved n e)
  step-HeldUp (retrier_moves wake saved n) e =
      Apart-HeldUp p q i (prepare_retryable_job-Apart h p q wake saved n e) o

module _ {J : Type 0} (h : JobHandler J) where
  Run-HeldUp : (i : ℕ) {p q : Pool J} {es : List (Event J)} → HeldUp p i → Run h p es q → HeldUp q i
  Run-HeldUp i o here = o
  Run-HeldUp i o (next {q = q} {r = r} {e = e} run st) =
      step-HeldUp h q r i (Run-HeldUp i o run) e st

  -- Once the shutdown waits for a worker that waits for room in a channel which only the main loop
  -- empties, or that a panic ended, every schedule leaves the main loop there: Start does not return.
  pub HeldUp-forever :
      (i : ℕ) {p q : Pool J} {es : List (Event J)}
      → HeldUp p i
      → Run h p es q
      → q.main ≡ waiting_worker i
  HeldUp-forever i o run = (Run-HeldUp i o run).waits
