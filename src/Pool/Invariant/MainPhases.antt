-- ===== src/Pool/Invariant/MainPhases.antt =====
-- The steps of the main loop keep the phases of the shutdown.
use bridge_core.Prelude.{
  ℕ, ◌≡◌, subst, Bool, true, false, some, [], ◌∷◌, ◌++◌, get_elem?, All-get_elem?, inl, inr,
  Option-cases, Bool-cases, arith,
}
use bridge_core.Pool.Channel.{close}
use bridge_core.Pool.State.{
  Worker, MainPc, selecting, dispatching, sending, closing, draining, closing_worker,
  waiting_worker, closing_channels, saving_retries, saving_failures, waiting_retries, halted, Pool,
}
use bridge_core.Pool.Ops.{send_job_to_worker}
use bridge_core.Pool.Main.{
  Choice, failed_case, retry_case, job_case, done_case, select, dispatch, drain, close_worker,
  await_worker, save_retry, save_failure, main_step, jump, back_to, is_stopped,
}
use bridge_core.Pool.Invariant.Phases.{
  IsStopped, IsDrained, Phases, FirstStopped-suc, FirstStopped-All,
}
use bridge_core.Pool.Invariant.WorkerPhases.{set_worker-Phases}

module _ {J : Type 0} (p q : Pool J) (f : Phases p) where
  select-Phases :
      (c : Choice) (saved : Bool) → p.main ≡ selecting → select c saved p ≡ some q → Phases q
  unfolding select
  select-Phases failed_case saved now e = ground arith
  select-Phases retry_case saved now e = ground arith
  select-Phases job_case saved now e = ground arith
  select-Phases done_case saved now e = ground arith

  dispatch-Phases :
      (last : Bool) (job : J)
      → p.main ≡ dispatching last job
      → dispatch last job p ≡ some q
      → Phases q
  unfolding dispatch
  dispatch-Phases last job now e = ground arith

  back_to-Phases :
      (last : Bool) (i : ℕ) (job : J) → p.main ≡ sending last i job → Phases (jump (back_to last) p)
  back_to-Phases true i job now = ground arith
  back_to-Phases false i job now = ground arith

  drain-Phases : p.main ≡ draining → drain p ≡ some q → Phases q
  unfolding drain
  drain-Phases now e = ground arith

  close_worker-Phases : (k : ℕ) → p.main ≡ closing_worker k → Phases (close_worker k p)
  unfolding close_worker
  close_worker-Phases k now = elim (Option-cases (get_elem? p.workers k)) [
    | inl gone ↦ ground (arith, gone, FirstStopped-All k p.workers gone)
    | inr (v, at) ↦ ground (
      arith,
      at,
      All-get_elem? IsDrained p.workers k v f.drained at,
      set_worker-Phases p k v (record v { worker_chan = close v.worker_chan }) at,
    )
  ]

  is_stopped-IsStopped : (k : Worker J) → is_stopped k.pc ≡ true → IsStopped k
  is_stopped-IsStopped k e = ground arith

  await_worker-Phases : (k : ℕ) → p.main ≡ waiting_worker k → await_worker k p ≡ some q → Phases q
  unfolding await_worker
  await_worker-Phases k now e = elim (Option-cases (get_elem? p.workers k)) [
    | inl gone ↦ ground (arith, gone)
    | inr (v, at) ↦ elim (Bool-cases (is_stopped v.pc)) [
      | inl over ↦ ground (
        arith,
        at,
        over,
        FirstStopped-suc k p.workers v at (is_stopped-IsStopped v over) (ground arith),
      )
      | inr still ↦ ground (arith, at, still)
    ]
  ]

  save_retry-Phases :
      (saved : Bool) → p.main ≡ saving_retries → save_retry saved p ≡ some q → Phases q
  unfolding save_retry
  save_retry-Phases saved now e = ground arith

  save_failure-Phases :
      (saved : Bool) → p.main ≡ saving_failures → save_failure saved p ≡ some q → Phases q
  unfolding save_failure
  save_failure-Phases saved now e = ground arith

module _ {J : Type 0} (p q : Pool J) (f : Phases p) where
  pub send_job_to_worker-Phases :
      (saved : Bool) (i : ℕ) (job : J) → send_job_to_worker saved i job p ≡ some q → Phases q
  unfolding send_job_to_worker
  send_job_to_worker-Phases saved i job e = elim (Option-cases (get_elem? p.workers i)) [
    | inl gone ↦ ground (arith, gone)
    | inr (k, at) ↦ ground (
      arith,
      at,
      All-get_elem? IsDrained p.workers i k f.drained at,
      set_worker-Phases p i k
          (record k {
            worker_chan = record (k.worker_chan) { items = k.worker_chan.items ++ job ∷ [] };
          })
          at,
    )
  ]

module _ {J : Type 0} (p q : Pool J) (f : Phases p) where
  pub main_step-Phases :
      (c : Choice) (saved : Bool) (m : MainPc J)
      → p.main ≡ m
      → main_step c saved p m ≡ some q
      → Phases q
  unfolding main_step
  main_step-Phases c saved selecting now e = select-Phases p q f c saved now e
  main_step-Phases c saved (dispatching last job) now e = dispatch-Phases p q f last job now e
  main_step-Phases c saved (sending last i job) now e =
      send_job_to_worker-Phases (jump (back_to last) p) q (back_to-Phases p q f last i job now)
        saved i job e
  main_step-Phases c saved closing now e = ground arith
  main_step-Phases c saved draining now e = drain-Phases p q f now e
  main_step-Phases c saved (closing_worker k) now e =
      subst Phases (ground arith) (close_worker-Phases p q f k now)
  main_step-Phases c saved (waiting_worker k) now e = await_worker-Phases p q f k now e
  main_step-Phases c saved closing_channels now e = ground arith
  main_step-Phases c saved saving_retries now e = save_retry-Phases p q f saved now e
  main_step-Phases c saved saving_failures now e = save_failure-Phases p q f saved now e
  main_step-Phases c saved waiting_retries now e = ground arith
  main_step-Phases c saved halted now e = cc
