-- ===== src/Tests/ShutdownRuns.antt =====
-- The shutdown of a pool with two workers and room for both.
use bridge_core.Prelude.{◌≤◌, ◌∷◌, ◌⊎◌, true, ℕ, List, arith, All, ◌≡◌, some, refl, [], length}
use bridge_core.Job.Base.{BaseJob}
use bridge_core.Job.Handler.{base_handler}
use bridge_core.Pool.State.{Config, Pool, halted}
use bridge_core.Pool.Workers.{succeeds}
use bridge_core.Pool.Main.{job_case, done_case}
use bridge_core.Pool.Setup.{set_up, with_defaults}
use bridge_core.Pool.System.{Event, cancels, enqueues, main_moves, worker_moves}
use bridge_core.Pool.Invariant.Phases.{stage}
use bridge_core.Pool.Safety.Start.{fresh_pool}
use bridge_core.Pool.Shutdown.Calm.{IsCalmEvent}
use bridge_core.Pool.Shutdown.Work.{IsOwn, work}
use bridge_core.Pool.Shutdown.Progress.{Enabled}
use bridge_core.Pool.Shutdown.Ends.{shutdown-bounded}
use bridge_core.Tests.Samples.{play, Played, begin_at, job_numbered}

abbrev pub roomy : Config
roomy = record { number_of_workers = 2; max_queue_size = 2; max_retry = 3; back_off = 5 }

abbrev pub roomy_pool : Pool BaseJob
roomy_pool = fresh_pool BaseJob 100 roomy

roomy_fits : (with_defaults roomy).number_of_workers ≤ (with_defaults roomy).max_queue_size
unfolding with_defaults
roomy_fits = omega arith

abbrev pub main_goes : Event BaseJob
main_goes = main_moves job_case true

abbrev pub worker_goes : ℕ → Event BaseJob
worker_goes i = worker_moves succeeds true i

-- Two jobs are enqueued, and the pool is closed before a worker has one.
abbrev closed : Played roomy_pool
closed =
    play
      (enqueues true (some (job_numbered 1))
        ∷ enqueues true (some (job_numbered 2))
        ∷ worker_goes 0
        ∷ cancels
        ∷ main_moves done_case true
        ∷ [])
      (begin_at roomy_pool)

closed_calm : All IsCalmEvent closed.schedule
unfolding play set_up
closed_calm = (tt, (tt, (refl, (tt, (tt, tt)))))

closed_late : 1 ≤ stage closed.last.main
unfolding play set_up
closed_late = omega arith

-- The drain hands out both jobs, and the workers process them before they stop.
abbrev to_end : List (Event BaseJob)
to_end =
    main_goes
    ∷ main_goes
    ∷ main_goes
    ∷ main_goes
    ∷ worker_goes 0
    ∷ worker_goes 1
    ∷ worker_goes 0
    ∷ worker_goes 0
    ∷ main_goes
    ∷ main_goes
    ∷ main_goes
    ∷ worker_goes 1
    ∷ worker_goes 1
    ∷ worker_goes 1
    ∷ main_goes
    ∷ main_goes
    ∷ main_goes
    ∷ main_goes
    ∷ worker_goes 0
    ∷ main_goes
    ∷ main_goes
    ∷ worker_goes 1
    ∷ worker_goes 1
    ∷ main_goes
    ∷ main_goes
    ∷ main_goes
    ∷ main_goes
    ∷ main_goes
    ∷ main_goes
    ∷ main_goes
    ∷ []

abbrev ended : Played closed.last
ended = play to_end (begin_at closed.last)

ended_state : (ended.last.main ≡ halted) × (length ended.schedule ≡ 26) × (work closed.last ≡ 26)
unfolding play set_up
ended_state = (refl, refl, refl)

ended-IsOwn : All IsOwn ended.schedule
unfolding play set_up
ended-IsOwn = (
  tt,
  (
    tt,
    (
      tt,
      (
        tt,
        (
          tt,
          (
            tt,
            (
              refl,
              (
                tt,
                (
                  tt,
                  (
                    refl,
                    (
                      tt,
                      (
                        tt,
                        (
                          refl,
                          (
                            refl,
                            (
                              refl,
                              (
                                tt,
                                (
                                  tt,
                                  (tt, (refl, (refl, (refl, (refl, (tt, (tt, (tt, (tt, tt))))))))),
                                ),
                              ),
                            ),
                          ),
                        ),
                      ),
                    ),
                  ),
                ),
              ),
            ),
          ),
        ),
      ),
    ),
  ),
)

shutdown-bounded_example :
    (length ended.schedule ≤ work closed.last)
    × ((ended.last.main ≡ halted) ⊎ Enabled base_handler ended.last)
shutdown-bounded_example =
    shutdown-bounded base_handler 100 roomy roomy_fits closed_calm closed.run closed_late
      ended-IsOwn ended.run
