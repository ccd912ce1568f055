-- ===== src/Pool/Safety/Jam.antt =====
-- Workers that wait for room in a channel that only the main loop empties, while the main loop waits
-- for a worker.
use bridge_core.Prelude.{
  ℕ, ◌≡◌, ◌∙◌, refl, Bool, true, false, Option, none, some, List, [], length, leb, get_elem?, All,
  All-get_elem?, if◌then◌else◌, inl, inr, Option-cases, arith, ◌==◌, get_elem?-set_other, All-map,
}
use bridge_core.Types.{JobHandler}
use bridge_core.Pool.Channel.{Chan}
use bridge_core.Pool.State.{
  Pool, Worker, WorkerPc, registering, receiving, processing, failing, retrying, stopped, exited,
  dispatching,
}
use bridge_core.Pool.Ops.{enqueue}
use bridge_core.Pool.Workers.{Verdict, worker_step, start_worker}
use bridge_core.Pool.Retry.{Wake, prepare_retryable_job}
use bridge_core.Pool.Main.{main_step, dispatch}
use bridge_core.Pool.System.{
  Event, passes, cancels, enqueues, main_moves, worker_moves, retrier_moves, step, Run, here, next,
}

-- A send on this channel blocks.
abbrev pub is_full {ℓ} : {A : Type ℓ} → Chan A → Bool
is_full ch = if ch.closed then false else leb ch.cap (length ch.items)

module _ {J : Type 0} where
  -- The worker can do nothing before the main loop receives from a channel.
  abbrev pub is_blocked : Pool J → WorkerPc J → Bool
  is_blocked p registering = is_full p.queue
  is_blocked p receiving = false
  is_blocked p (processing job) = false
  is_blocked p (failing job) = is_full p.failed_job_chan
  is_blocked p (retrying job) = is_full p.retry_job_chan
  is_blocked p stopped = false
  is_blocked p exited = true

  abbrev pub IsBlocked : Pool J → Worker J → Type 0
  IsBlocked p k = is_blocked p k.pc ≡ true

  -- The main loop has a job for the next worker that registers, and no worker can register.
  pub record Deadlocked (p : Pool J) (last : Bool) (job : J) : Type 0 where
    pub dispatches : p.main ≡ dispatching last job
    pub no_worker : p.queue.items ≡ []
    pub is_open : p.queue.closed ≡ false
    pub all_blocked : All (IsBlocked p) p.workers

  -- A step that neither moves the main loop nor makes room in a full channel.
  pub record Keeps (p q : Pool J) : Type 0 where
    pub main_is : q.main ≡ p.main
    pub queue_full : is_full p.queue ≡ true → is_full q.queue ≡ true
    pub failed_full : is_full p.failed_job_chan ≡ true → is_full q.failed_job_chan ≡ true
    pub retry_full : is_full p.retry_job_chan ≡ true → is_full q.retry_job_chan ≡ true

  -- A step that leaves the main loop, the workers and their channels alone, and completes no job.
  pub record Apart (p q : Pool J) : Type 0 where
    pub same_main : q.main ≡ p.main
    pub same_workers : q.workers ≡ p.workers
    pub same_queue : q.queue ≡ p.queue
    pub same_failed : q.failed_job_chan ≡ p.failed_job_chan
    pub same_retry : q.retry_job_chan ≡ p.retry_job_chan
    pub same_completed : q.ledger.completed ≡ p.ledger.completed

module _ {J : Type 0} (h : JobHandler J) (v : Verdict) (saved : Bool) (p q : Pool J) (i : ℕ)
    (k : Worker J) where
  worker_step-Keeps : (pc : WorkerPc J) → worker_step h v saved p i k pc ≡ some q → Keeps p q
  unfolding worker_step
  worker_step-Keeps registering e = ground (arith, e)
  worker_step-Keeps pc e = ground (arith, e)

  pub worker_step-others :
      (pc : WorkerPc J)
      → worker_step h v saved p i k pc ≡ some q
      → (j : ℕ) → (i == j) ≡ false
      → get_elem? q.workers j ≡ get_elem? p.workers j
  unfolding worker_step
  worker_step-others pc e j other = grind (arith, e, get_elem?-set_other, other)

  pub blocked-none :
      (pc : WorkerPc J) → is_blocked p pc ≡ true → worker_step h v saved p i k pc ≡ none
  unfolding worker_step
  blocked-none pc b = ground (arith, b)

module _ {J : Type 0} (h : JobHandler J) (p q : Pool J) where
  pub start_worker-Keeps :
      (v : Verdict) (saved : Bool) (i : ℕ) → start_worker h v saved i p ≡ some q → Keeps p q
  unfolding start_worker
  start_worker-Keeps v saved i e = elim (Option-cases (get_elem? p.workers i)) [
    | inl gone ↦ ground (arith, gone, e)
    | inr (k, at) ↦ worker_step-Keeps h v saved p q i k k.pc (rw (at, start_worker) at e)
  ]

  pub enqueue-Apart : (saved : Bool) (job : Option J) → enqueue saved job p ≡ some q → Apart p q
  unfolding enqueue
  enqueue-Apart saved none e = ground (arith, e)
  enqueue-Apart saved (some job) e = ground (arith, e)

  pub prepare_retryable_job-Apart :
      (wake : Wake) (saved : Bool) (i : ℕ)
      → prepare_retryable_job h wake saved i p ≡ some q
      → Apart p q
  unfolding prepare_retryable_job
  prepare_retryable_job-Apart wake saved i e = ground (arith, e)

  -- In a deadlock the events of the main loop and of the workers are not enabled.
  step-Apart :
      (e : Event J) (last : Bool) (job : J)
      → Deadlocked p last job
      → step h e p ≡ some q
      → Apart p q
  unfolding step start_worker main_step dispatch
  step-Apart (passes n) last job d e = ground (arith, e)
  step-Apart cancels last job d e = ground (arith, e)
  step-Apart (enqueues saved other) last job d e = enqueue-Apart saved other e
  step-Apart (main_moves c saved) last job d e =
      let stuck : main_step c saved p p.main ≡ none =
        rw (d.dispatches) (ground (arith, d.no_worker, d.is_open)) in
      cc
  step-Apart (worker_moves v saved i) last job d e = elim (Option-cases (get_elem? p.workers i)) [
    | inl gone ↦ ground (arith, gone, e)
    | inr (k, at) ↦
        let stuck : worker_step h v saved p i k k.pc ≡ none =
          blocked-none h v saved p p i k k.pc
            (All-get_elem? (IsBlocked p) p.workers i k d.all_blocked at) in
        ground (arith, at, e, stuck)
  ]
  step-Apart (retrier_moves wake saved i) last job d e = prepare_retryable_job-Apart wake saved i e

module _ {J : Type 0} (p q : Pool J) (a : Apart p q) where
  pub Apart-is_blocked : (pc : WorkerPc J) → is_blocked q pc ≡ is_blocked p pc
  Apart-is_blocked pc = ground (arith, a.same_queue, a.same_failed, a.same_retry)

  Apart-Deadlocked : (last : Bool) (job : J) → Deadlocked p last job → Deadlocked q last job
  Apart-Deadlocked last job d = record {
    dispatches = a.same_main ∙ d.dispatches;
    no_worker = rw (a.same_queue) (d.no_worker);
    is_open = rw (a.same_queue) (d.is_open);
    all_blocked =
        rw (a.same_workers)
          (All-map (IsBlocked p) (λ k b. Apart-is_blocked k.pc ∙ b) p.workers d.all_blocked);
  }

module _ {J : Type 0} (h : JobHandler J) where
  Run-Deadlocked :
      (last : Bool) (job : J) {p q : Pool J} {es : List (Event J)}
      → Deadlocked p last job
      → Run h p es q
      → Apart p q × Deadlocked q last job
  Run-Deadlocked last job d here = (
    record {
      same_main = refl;
      same_workers = refl;
      same_queue = refl;
      same_failed = refl;
      same_retry = refl;
      same_completed = refl;
    },
    d,
  )
  Run-Deadlocked last job {p} d (next {q = q} {r = r} {e = e} run st) =
      let (a, d') = Run-Deadlocked last job d run in
      let b = step-Apart h q r e last job d' st in
      (
        record {
          same_main = b.same_main ∙ a.same_main;
          same_workers = b.same_workers ∙ a.same_workers;
          same_queue = b.same_queue ∙ a.same_queue;
          same_failed = b.same_failed ∙ a.same_failed;
          same_retry = b.same_retry ∙ a.same_retry;
          same_completed = b.same_completed ∙ a.same_completed;
        },
        Apart-Deadlocked q r b last job d',
      )

  -- Once the main loop waits for a worker to register while every worker is blocked, it stays so:
  -- whatever happens, the main loop and the workers do not move again and no job is completed any
  -- more.
  pub Deadlocked-forever :
      (last : Bool) (job : J) {p q : Pool J} {es : List (Event J)}
      → Deadlocked p last job
      → Run h p es q
      → (q.main ≡ dispatching last job)
        × (q.workers ≡ p.workers)
        × (q.ledger.completed ≡ p.ledger.completed)
  Deadlocked-forever last job d run =
      let (a, d') = Run-Deadlocked last job d run in
      (d'.dispatches, a.same_workers, a.same_completed)
