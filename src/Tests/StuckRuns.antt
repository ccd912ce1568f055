-- ===== src/Tests/StuckRuns.antt =====
-- Schedules after which the pool is stuck.
use bridge_core.Prelude.{ℕ, ◌≡◌, ◌≢◌, refl, true, false, some, List, [], ◌∷◌, ◌<◌, arith}
use bridge_core.Job.Base.{BaseJob, increase_retry_count, update_next_try}
use bridge_core.Job.Handler.{base_handler}
use bridge_core.Pool.State.{Config, Pool, dispatching, waiting_worker, halted}
use bridge_core.Pool.Workers.{fails}
use bridge_core.Pool.Main.{job_case, done_case}
use bridge_core.Pool.Setup.{set_up, with_defaults}
use bridge_core.Pool.System.{Event, passes, cancels, enqueues, main_moves, worker_moves}
use bridge_core.Pool.Safety.Start.{fresh_pool}
use bridge_core.Pool.Safety.Jam.{Deadlocked, Deadlocked-forever}
use bridge_core.Pool.Safety.HeldUp.{HeldUp, HeldUp-forever}
use bridge_core.Pool.Safety.Overfull.{overfull-never_halts}
use bridge_core.Tests.Samples.{job_numbered, Played, play, begin_at}

-- One worker, and room for one entry in each channel.
abbrev tight_pool : Pool BaseJob
tight_pool =
    fresh_pool BaseJob 100
      (record { number_of_workers = 1; max_queue_size = 1; max_retry = 3; back_off = 5 })

abbrev main_goes : Event BaseJob
main_goes = main_moves job_case true

abbrev worker_fails : ℕ → Event BaseJob
worker_fails i = worker_moves fails true i

-- A job goes to the worker, which takes it.
abbrev hand_over : ℕ → List (Event BaseJob)
hand_over n =
    enqueues true (some (job_numbered n))
    ∷ worker_fails 0
    ∷ main_goes
    ∷ main_goes
    ∷ main_goes
    ∷ worker_fails 0
    ∷ []

-- The first job failed and waits in RetryJobChan, and the worker has the second.
abbrev one_waits : Played tight_pool
one_waits =
    play (hand_over 2)
      (play (worker_fails 0 ∷ worker_fails 0 ∷ []) (play (hand_over 1) (begin_at tight_pool)))

-- The main loop takes a third job, and the second one fails.
abbrev jammed : Played tight_pool
jammed = play (enqueues true (some (job_numbered 3)) ∷ main_goes ∷ worker_fails 0 ∷ []) one_waits

jammed-Deadlocked : Deadlocked jammed.last false (job_numbered 3)
unfolding play set_up update_next_try increase_retry_count
jammed-Deadlocked = record {
  dispatches = refl;
  no_worker = refl;
  is_open = refl;
  all_blocked = (refl, tt);
}

abbrev after_jam : Played jammed.last
after_jam =
    play
      (cancels
        ∷ passes 60
        ∷ main_goes
        ∷ enqueues true (some (job_numbered 4))
        ∷ worker_fails 0
        ∷ [])
      (begin_at jammed.last)

Deadlocked-forever_example :
    (after_jam.last.main ≡ dispatching false (job_numbered 3))
    × (after_jam.last.workers ≡ jammed.last.workers)
    × (after_jam.last.ledger.completed ≡ jammed.last.ledger.completed)
Deadlocked-forever_example =
    Deadlocked-forever base_handler false (job_numbered 3) jammed-Deadlocked after_jam.run

-- The pool is cancelled, and the second job fails while the shutdown waits for the worker.
abbrev closed_late : Played tight_pool
closed_late =
    play
      (cancels
        ∷ main_moves done_case true
        ∷ main_goes
        ∷ main_goes
        ∷ main_goes
        ∷ worker_fails 0
        ∷ [])
      one_waits

closed_late-HeldUp : HeldUp closed_late.last 0
unfolding play set_up update_next_try increase_retry_count
closed_late-HeldUp = record { waits = refl; worker = _; is_at = refl; blocked = refl }

after_closed : Played closed_late.last
after_closed = play (worker_fails 0 ∷ main_goes ∷ passes 60 ∷ []) (begin_at closed_late.last)

HeldUp-forever_example : after_closed.last.main ≡ waiting_worker 0
HeldUp-forever_example = HeldUp-forever base_handler 0 closed_late-HeldUp after_closed.run

-- Two workers, and room for one of them in the queue.
abbrev two_workers : Config
two_workers = record { number_of_workers = 2; max_queue_size = 1; max_retry = 3; back_off = 5 }

abbrev pair_closed : Played (fresh_pool BaseJob 100 two_workers)
pair_closed =
    play
      (worker_fails 0
        ∷ cancels
        ∷ main_moves done_case true
        ∷ main_goes
        ∷ main_goes
        ∷ main_goes
        ∷ worker_fails 0
        ∷ main_goes
        ∷ main_goes
        ∷ worker_fails 1
        ∷ main_goes
        ∷ [])
      (begin_at (fresh_pool BaseJob 100 two_workers))

pair_closed_state : pair_closed.last.main ≡ waiting_worker 1
unfolding play set_up
pair_closed_state = refl

two_overfull :
    (with_defaults two_workers).max_queue_size < (with_defaults two_workers).number_of_workers
unfolding with_defaults
two_overfull = omega arith

-- Nothing is set.
abbrev no_settings : Config
no_settings = record { number_of_workers = 0; max_queue_size = 0; max_retry = 0; back_off = 0 }

-- The defaults ask for more workers than the queue has places.
default_overfull :
    (with_defaults no_settings).max_queue_size < (with_defaults no_settings).number_of_workers
unfolding with_defaults
default_overfull = omega arith

overfull-never_halts_example : pair_closed.last.main ≢ halted
overfull-never_halts_example =
    overfull-never_halts base_handler 100 two_workers two_overfull pair_closed.run
