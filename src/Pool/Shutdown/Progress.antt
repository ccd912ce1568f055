-- ===== src/Pool/Shutdown/Progress.antt =====
-- A pool that shuts down always has a step of its own left, until Start has returned.
use bridge_core.Pool.Invariant.MainTokens.{early_sending, early}
use bridge_core.Pool.State.{
  Pool, Worker, WorkerPc, stopped, registering, receiving, processing, failing, retrying, exited,
  closing_worker, saving_retries, MainPc, saving_failures, waiting_retries, closing_channels,
  waiting_worker, dispatching, sending, halted, selecting, closing, draining,
}
use bridge_core.Pool.Shutdown.Room.{room_for, due-le}
use bridge_core.Pool.Shutdown.WorkerCalm.{open_for}
use bridge_core.Pool.Shutdown.Calm.{Calm, IsCalm}
use bridge_core.Pool.Shutdown.Work.{IsOwn}
use bridge_core.Pool.Invariant.Sizes.{Sizes}
use bridge_core.Pool.Invariant.Phases.{Phases, IsDrained, stage}
use bridge_core.Pool.Workers.{start_worker, take_job, worker_step, succeeds, register}
use bridge_core.Pool.Main.{
  main_step, job_case, dispatch, hand_out, await_worker, drain, save_retry, save_failure,
  await_retries, is_stopped,
}
use bridge_core.Pool.Invariant.Tokens.{Tokens, main_token, count, due}
use bridge_core.Types.{JobHandler}
use bridge_core.Prelude.{
  ℕ, Option-cases, ◌≡◌, none, true, ◌≢◌, refl, some, get_elem?, length, All-get_elem?, inr, inl,
  ◌≤◌, ◌<◌, arith, ◌∷◌, List, [], Bool-cases, get_elem?-none, ==_iff, false, Bool, get_elem?-some,
  subst,
}
use bridge_core.Pool.System.{Event, main_moves, worker_moves, step}

module _ {J : Type 0} where
  -- What every schedule keeps of a pool whose jobs succeed, with the number of its workers and the
  -- capacity of its queue.
  pub record Settling (n cap : ℕ) (p : Pool J) : Type 0 where
    pub phases : Phases p
    pub tokens : Tokens p
    pub sizes : Sizes p n cap
    pub calm : Calm p

module _ {J : Type 0} (h : JobHandler J) (p : Pool J) where
  -- A step of the main loop or of a worker that is possible.
  pub record Enabled : Type 0 where
    pub event : Event J
    pub is_own : IsOwn event
    pub after : Pool J
    pub moves : step h event p ≡ some after

  by_main : (m : MainPc J) → p.main ≡ m → main_step job_case true p m ≢ none → Enabled
  unfolding step
  by_main m now possible = elim (Option-cases (main_step job_case true p p.main)) [
    | inl stuck ↦ absurd (possible (subst (λ x. main_step job_case true p x ≡ none) now stuck))
    | inr (q, e) ↦ record { event = main_moves job_case true; is_own = tt; after = q; moves = e }
  ]

  by_worker :
      (i : ℕ) (k : Worker J)
      → get_elem? p.workers i ≡ some k
      → worker_step h succeeds true p i k k.pc ≢ none
      → Enabled
  unfolding step start_worker
  by_worker i k at possible = elim (Option-cases (worker_step h succeeds true p i k k.pc)) [
    | inl stuck ↦ absurd (possible stuck)
    | inr (q, e) ↦ record {
      event = worker_moves succeeds true i;
      is_own = refl;
      after = q;
      moves = ground (arith, at, e);
    }
  ]

  module _ (n cap : ℕ) (s : Settling n cap p) (some_worker : 1 ≤ n) (fits : n ≤ cap) where
    open s use {phases, tokens, sizes, calm}

    IsCalm-at : (i : ℕ) (k : Worker J) → get_elem? p.workers i ≡ some k → IsCalm k
    IsCalm-at i k at = All-get_elem? IsCalm p.workers i k calm.all_calm at

    -- A worker that has to register can.
    registers :
        (i : ℕ) (k : Worker J)
        → get_elem? p.workers i ≡ some k
        → k.pc ≡ registering
        → worker_step h succeeds true p i k k.pc ≢ none
    unfolding worker_step register
    registers i k at now stuck =
        let is_open = open_for p p calm phases i k at now in
        let room = room_for p tokens i k at now in
        let less : length p.queue.items < p.queue.cap =
          omega (arith, room, sizes.0, sizes.1, fits) in
        let blocked : register p i k ≡ none = rw (now, worker_step) at stuck in
        ground (arith, is_open, less, blocked)

    -- A worker that has to take a job can, if there is one or its channel is closed.
    takes :
        (k : Worker J) (i : ℕ) (items : List J)
        → k.worker_chan.items ≡ items
        → (items ≡ [] → k.worker_chan.closed ≡ true)
        → take_job p i k ≢ none
    unfolding take_job
    takes k i [] has shut stuck = ground (arith, has, shut refl, stuck)
    takes k i (job ∷ rest) has shut stuck = ground (arith, has, stuck)

    worker_goes :
        (i : ℕ) (k : Worker J) (pc : WorkerPc J)
        → get_elem? p.workers i ≡ some k
        → k.pc ≡ pc
        → pc ≢ stopped
        → (pc ≡ receiving → k.worker_chan.items ≡ [] → k.worker_chan.closed ≡ true)
        → worker_step h succeeds true p i k k.pc ≢ none
    unfolding worker_step
    worker_goes i k registering at now runs shut stuck = registers i k at now stuck
    worker_goes i k receiving at now runs shut stuck =
        let waits : k.worker_chan.items ≡ [] → k.worker_chan.closed ≡ true = shut refl in
        takes k i k.worker_chan.items refl waits (rw (now, worker_step) at stuck)
    worker_goes i k (processing job) at now runs shut stuck =
        let blocked : worker_step h succeeds true p i k (processing job) ≡ none = rw now at stuck in
        ground (arith, blocked)
    worker_goes i k (failing job) at now runs shut stuck = ground (arith, IsCalm-at i k at, now)
    worker_goes i k (retrying job) at now runs shut stuck = ground (arith, IsCalm-at i k at, now)
    worker_goes i k stopped at now runs shut stuck = runs refl
    worker_goes i k exited at now runs shut stuck = ground (arith, IsCalm-at i k at, now)

    -- The main loop waits for a worker to register: some worker can move.
    dispatch_goes :
        (last : Bool) (job : J) (items : List ℕ)
        → p.main ≡ dispatching last job
        → p.queue.items ≡ items
        → Enabled
    unfolding main_step dispatch
    dispatch_goes last job (i ∷ rest) now has =
        by_main (dispatching last job) now (λ blocked. ground (arith, has, blocked))
    dispatch_goes last job [] now has =
        let (k, at) = get_elem?-some p.workers 0 (omega (arith, sizes.0, some_worker)) in
        let early_on : stage p.main < 3 = rw now (early last job) in
        let opened = tokens.still_open 0 k at early_on in
        let nothing : count 0 p.queue.items ≡ 0 = rw has refl in
        let no_token : main_token p.main 0 ≡ 0 = rw now refl in
        let old = tokens.token 0 k at in
        by_worker 0 k at (
          worker_goes 0 k k.pc at refl
            (λ over.
              let shut = (All-get_elem? IsDrained p.workers 0 k phases.drained at over).1 in cc)
            (λ waits empty.
              let one : due k.pc ≡ 1 = rw waits refl in
              let none_there : length k.worker_chan.items ≡ 0 = rw empty refl in
              absurd (omega (arith, old, nothing, no_token, one, none_there))))

    -- The worker whose token the main loop has is there, and its channel has room.
    sending_goes : (last : Bool) (i : ℕ) (job : J) → p.main ≡ sending last i job → Enabled
    unfolding main_step hand_out
    sending_goes last i job now =
        let mine : main_token p.main i ≡ 1 = rw now (ground (arith, ==_iff i i)) in
        elim (Option-cases (get_elem? p.workers i)) [
          | inl gone ↦
              absurd (omega (arith, tokens.strange i (get_elem?-none p.workers i gone), mine))
          | inr (k, at) ↦
              let opened : k.worker_chan.closed ≡ false =
                tokens.still_open i k at (rw now (early_sending last i job)) in
              let old = tokens.token i k at in
              let below = due-le k.pc in
              let room : length k.worker_chan.items < k.worker_chan.cap =
                omega (arith, old, mine, below, (IsCalm-at i k at).1) in
              by_main (sending last i job) now
                (λ blocked. ground (arith, at, opened, room, blocked))
        ]

    waiting_goes : (i : ℕ) → p.main ≡ waiting_worker i → Enabled
    unfolding main_step await_worker
    waiting_goes i now =
        let c = calm.waits_closed i now in
        elim (Bool-cases (is_stopped c.worker.pc)) [
          | inl over ↦
              by_main (waiting_worker i) now (λ blocked. ground (arith, c.is_at, over, blocked))
          | inr runs ↦ by_worker i c.worker c.is_at (
              worker_goes i c.worker c.worker.pc c.is_at refl (λ is. ground (arith, is, runs))
                (λ waits empty. c.is_closed))
        ]

    pub main_goes : (m : MainPc J) → p.main ≡ m → 1 ≤ stage m → m ≢ halted → Enabled
    unfolding main_step drain await_retries save_retry save_failure
    main_goes selecting now late runs = absurd (omega (arith, late))
    main_goes (dispatching last job) now late runs = dispatch_goes last job p.queue.items now refl
    main_goes (sending last i job) now late runs = sending_goes last i job now
    main_goes (waiting_worker k) now late runs = waiting_goes k now
    main_goes closing now late runs = by_main closing now (λ blocked. ground (arith, blocked))
    main_goes (closing_worker k) now late runs =
        by_main (closing_worker k) now (λ blocked. ground (arith, blocked))
    main_goes closing_channels now late runs =
        by_main closing_channels now (λ blocked. ground (arith, blocked))
    main_goes draining now late runs =
        let shut = phases.jobs_shut (rw now (omega arith)) in
        by_main draining now (λ blocked. ground (arith, shut, blocked))
    main_goes saving_retries now late runs =
        let shut = phases.retry_shut (rw now (omega arith)) in
        by_main saving_retries now (λ blocked. ground (arith, shut, blocked))
    main_goes saving_failures now late runs =
        let shut = phases.failed_shut (rw now (omega arith)) in
        by_main saving_failures now (λ blocked. ground (arith, shut, blocked))
    main_goes waiting_retries now late runs =
        by_main waiting_retries now (λ blocked. ground (arith, calm.none_counted, blocked))
    main_goes halted now late runs = absurd (runs refl)
