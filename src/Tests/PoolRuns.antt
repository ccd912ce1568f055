-- ===== src/Tests/PoolRuns.antt =====
-- Schedules of a pool with one worker.
use bridge_core.Prelude.{
  ℕ, ◌+◌, ◌≡◌, ◌≢◌, refl, true, false, some, List, [], ◌∷◌, get_elem?, ◌≤◌, weigh, inr, arith,
}
use bridge_core.Prelude.Int.{pos_part}
use bridge_core.Job.Base.{BaseJob, increase_retry_count, update_next_try}
use bridge_core.Job.Handler.{base_handler}
use bridge_core.Pool.State.{
  Worker, WorkerPc, processing, halted, ready, waiting_worker, waiting_retries, retrying,
}
use bridge_core.Pool.Workers.{succeeds, fails, crashes}
use bridge_core.Pool.Retry.{timer_fires}
use bridge_core.Pool.Main.{retry_case, job_case, done_case}
use bridge_core.Pool.Setup.{set_up}
use bridge_core.Pool.System.{
  Event, passes, cancels, enqueues, main_moves, worker_moves, retrier_moves, step,
}
use bridge_core.Pool.Conservation.Weights.{IsStable, held, settled, gained}
use bridge_core.Pool.Conservation.Losses.{kept}
use bridge_core.Pool.Conservation.Kept.{all_kept}
use bridge_core.Pool.Safety.Start.{AtRest, set_up-AtRest}
use bridge_core.Pool.Safety.Shutdown.{halted-accounts, sender-open}
use bridge_core.Pool.Safety.Hang.{early_return-never_halts}
use bridge_core.Pool.Safety.Crash.{crash-never_halts}
use bridge_core.Tests.Samples.{job_numbered, one_worker, idle_pool, Played, play, begin_at}

abbrev main_goes : Event BaseJob
main_goes = main_moves job_case true

abbrev worker_goes : Event BaseJob
worker_goes = worker_moves succeeds true 0

abbrev retrier_goes : Event BaseJob
retrier_goes = retrier_moves timer_fires true 0

-- Job 7 is enqueued and reaches the worker.
abbrev to_worker : List (Event BaseJob)
to_worker =
    enqueues true (some (job_numbered 7))
    ∷ worker_goes
    ∷ main_goes
    ∷ main_goes
    ∷ main_goes
    ∷ worker_goes
    ∷ []

-- Its first try fails, and it waits for the next one.
abbrev to_retrier : List (Event BaseJob)
to_retrier = worker_moves fails true 0 ∷ worker_goes ∷ main_moves retry_case true ∷ []

-- The next try is due, the job is enqueued again, and the pool is closed; the job is processed in the
-- drain.
abbrev to_end : List (Event BaseJob)
to_end =
    retrier_goes
    ∷ passes 9
    ∷ retrier_goes
    ∷ retrier_goes
    ∷ cancels
    ∷ main_moves done_case true
    ∷ main_goes
    ∷ main_goes
    ∷ worker_goes
    ∷ main_goes
    ∷ main_goes
    ∷ worker_goes
    ∷ worker_goes
    ∷ main_goes
    ∷ main_goes
    ∷ worker_goes
    ∷ worker_goes
    ∷ main_goes
    ∷ main_goes
    ∷ main_goes
    ∷ main_goes
    ∷ main_goes
    ∷ main_goes
    ∷ []

abbrev working : Played idle_pool
working = play to_worker (begin_at idle_pool)

abbrev waiting : Played idle_pool
waiting = play to_retrier working

abbrev ended : Played idle_pool
ended = play to_end waiting

ended_state :
    (ended.last.main ≡ halted)
    × (ended.last.ledger.completed
        ≡ update_next_try 105 (increase_retry_count (job_numbered 7)) ∷ [])
unfolding play set_up update_next_try increase_retry_count
ended_state = (refl, refl)

abbrev pub numbered : BaseJob → ℕ
numbered e = pos_part e.id

pub numbered-IsStable : IsStable base_handler numbered
unfolding increase_retry_count update_next_try
numbered-IsStable = record { keeps-increase = λ j. refl; keeps-update = λ t j. refl }

idle_pool-AtRest : AtRest idle_pool
idle_pool-AtRest = (set_up-AtRest BaseJob 100 one_worker).1

all_kept_example :
    held numbered ended.last + kept numbered ended.last.ledger
    ≡ weigh (gained numbered) ended.schedule
unfolding play set_up update_next_try increase_retry_count
all_kept_example = all_kept base_handler numbered numbered-IsStable ended.run idle_pool-AtRest refl

halted-accounts_example :
    (held numbered ended.last ≡ 0)
    × (settled numbered ended.last.ledger ≡ weigh (gained numbered) ended.schedule)
halted-accounts_example =
    halted-accounts base_handler numbered numbered-IsStable idle_pool-AtRest ended.run ended_state.0

abbrev worker_at : WorkerPc BaseJob → Worker BaseJob
worker_at pc = record {
  id = 0;
  worker_chan = record { cap = 2; items = []; closed = false };
  pc = pc;
}

abbrev retried : BaseJob
retried = update_next_try 105 (increase_retry_count (job_numbered 7))

-- The cancelled pool as far as its shutdown gets.
abbrev shut_down : List (Event BaseJob)
shut_down =
    cancels
    ∷ main_moves done_case true
    ∷ main_goes
    ∷ main_goes
    ∷ main_goes
    ∷ worker_goes
    ∷ worker_goes
    ∷ main_goes
    ∷ main_goes
    ∷ main_goes
    ∷ main_goes
    ∷ main_goes
    ∷ main_goes
    ∷ []

abbrev crashed : Played idle_pool
crashed = play (worker_moves crashes true 0 ∷ []) working

abbrev after_crash : Played crashed.last
after_crash = play shut_down (begin_at crashed.last)

crash-never_halts_example :
    (crashed.last.ledger.crashed ≡ job_numbered 7 ∷ working.last.ledger.crashed)
    × (after_crash.last.main ≢ halted)
unfolding play set_up step
crash-never_halts_example =
    crash-never_halts base_handler 0 (worker_at (processing (job_numbered 7))) (job_numbered 7) true
      idle_pool-AtRest working.run refl refl refl after_crash.run

-- The shutdown is stuck before `worker.Wait()` returns.
after_crash_state : after_crash.last.main ≡ waiting_worker 0
unfolding play set_up update_next_try increase_retry_count
after_crash_state = refl

abbrev failed_once : Played idle_pool
failed_once = play (worker_moves fails true 0 ∷ []) working

failed_once_worker : get_elem? failed_once.last.workers 0 ≡ some (worker_at (retrying retried))
unfolding play set_up update_next_try increase_retry_count
failed_once_worker = refl

sender-open_example :
    (failed_once.last.queue.closed ≡ false)
    × (failed_once.last.failed_job_chan.closed ≡ false)
    × (failed_once.last.retry_job_chan.closed ≡ false)
sender-open_example =
    sender-open base_handler 0 (worker_at (retrying retried)) idle_pool-AtRest failed_once.run
      failed_once_worker refl

-- The main loop takes the retry only nine seconds later.
abbrev late : Played idle_pool
late = play (passes 9 ∷ []) waiting

abbrev gone : Played idle_pool
gone = play (retrier_goes ∷ []) late

abbrev after_gone : Played gone.last
after_gone = play shut_down (begin_at gone.last)

late_retrier :
    (get_elem? late.last.retriers 0 ≡ some (ready retried))
    × (late.last.is_closed ≡ false)
    × (late.last.now ≡ 109)
    × (retried.next_try ≡ 105)
unfolding play set_up update_next_try increase_retry_count
late_retrier = (refl, refl, refl, refl)

late_due : retried.next_try ≤ late.last.now
late_due = omega (arith, late_retrier.2, late_retrier.3)

gone_step : step base_handler retrier_goes late.last ≡ some gone.last
unfolding play set_up step update_next_try increase_retry_count
gone_step = refl

early_return-never_halts_example : after_gone.last.main ≢ halted
early_return-never_halts_example =
    early_return-never_halts base_handler 0 retried timer_fires true idle_pool-AtRest late.run
      late_retrier.0 (inr late_due) gone_step after_gone.run

after_gone_state : after_gone.last.main ≡ waiting_retries
unfolding play set_up update_next_try increase_retry_count
after_gone_state = refl
