-- ===== src/Tests/DeliveredRuns.antt =====
-- The job of a small chain's one event, from processBatchLogs to the end of the pool.
use bridge_core.Prelude.{
  ◌+◌, ◌-◌, ◌≡◌, ◌∙◌, refl, sym, true, Option, some, [], ◌∷◌, arith, All, weigh,
}
use bridge_core.Prelude.Outcome.{Outcome, returns}
use bridge_core.Types.{as_transaction, new_empty_transaction}
use bridge_core.Job.Base.{BaseJob}
use bridge_core.Job.Handler.{base_handler}
use bridge_core.Pool.State.{halted}
use bridge_core.Pool.Main.{done_case}
use bridge_core.Pool.Setup.{set_up}
use bridge_core.Pool.System.{enqueues, cancels, main_moves}
use bridge_core.Pool.Shutdown.Calm.{IsCalmEvent}
use bridge_core.Controller.Filters.{add_subscriptions}
use bridge_core.Controller.Logs.{LogTools, process_logs}
use bridge_core.Controller.Batch.Loop.{
  BatchState, batch_end, batch_round, batch_loop, process_batch_logs,
}
use bridge_core.Controller.Batch.Jobs.{jobs_of, enqueued_jobs}
use bridge_core.Controller.Batch.Coverage.{logs_between}
use bridge_core.Controller.Delivered.{enqueued_by, process_batch_logs-completed}
use bridge_core.Tests.Samples.{job_numbered, Played, play, begin_at}
use bridge_core.Tests.PoolRuns.{numbered, numbered-IsStable}
use bridge_core.Tests.ShutdownRuns.{roomy, roomy_pool, main_goes, worker_goes}
use bridge_core.Tests.Batches.{blocks, built, built_filters, flaky, flaky-AnswersFrom, watcher}

-- A job is numbered by its transaction.
abbrev job_tools : LogTools BaseJob
job_tools = record {
  marshal = λ l. some [];
  topic_hex = λ t. "0x";
  address_hex = λ a. "0x9";
  get_listen_handle_job = λ name tx topic payload. some (job_numbered tx.hash);
}

abbrev state_of : Option (Outcome (BatchState BaseJob)) → BatchState BaseJob
state_of (some (returns r)) = r
state_of _ = record { from_height = 0; retry = 0; calls = 0; trace = [] }

abbrev batched : BatchState BaseJob
batched = state_of (process_batch_logs job_tools flaky (λ s. 9) watcher 2 1 8)

batched_run : process_batch_logs job_tools flaky (λ s. 9) watcher 2 1 8 ≡ some (returns batched)
unfolding process_batch_logs batch_loop batch_round batch_end process_logs add_subscriptions
    as_transaction new_empty_transaction
batched_run = refl

batched_jobs : enqueued_jobs batched.trace ≡ job_numbered 1003 ∷ []
unfolding process_batch_logs batch_loop batch_round batch_end process_logs add_subscriptions
    as_transaction new_empty_transaction
batched_jobs = refl

-- The job is enqueued and the pool is closed; the drain hands the job out.
abbrev delivered : Played roomy_pool
delivered =
    play
      (enqueues true (some (job_numbered 1003))
        ∷ worker_goes 0
        ∷ cancels
        ∷ main_moves done_case true
        ∷ main_goes
        ∷ main_goes
        ∷ main_goes
        ∷ main_goes
        ∷ worker_goes 0
        ∷ worker_goes 0
        ∷ worker_goes 0
        ∷ main_goes
        ∷ main_goes
        ∷ worker_goes 0
        ∷ main_goes
        ∷ worker_goes 1
        ∷ main_goes
        ∷ worker_goes 1
        ∷ main_goes
        ∷ main_goes
        ∷ main_goes
        ∷ main_goes
        ∷ main_goes
        ∷ main_goes
        ∷ main_goes
        ∷ [])
      (begin_at roomy_pool)

delivered_state :
    (delivered.last.main ≡ halted) × (delivered.last.ledger.completed ≡ job_numbered 1003 ∷ [])
unfolding play set_up
delivered_state = (refl, refl)

delivered-IsCalmEvent : All IsCalmEvent delivered.schedule
unfolding play set_up
delivered-IsCalmEvent = (
  tt,
  (
    tt,
    (
      tt,
      (
        tt,
        (
          tt,
          (
            tt,
            (
              refl,
              (
                tt,
                (
                  refl,
                  (
                    tt,
                    (
                      refl,
                      (
                        tt,
                        (
                          tt,
                          (
                            refl,
                            (refl, (refl, (tt, (tt, (tt, (tt, (tt, (tt, (refl, (tt, tt)))))))))),
                          ),
                        ),
                      ),
                    ),
                  ),
                ),
              ),
            ),
          ),
        ),
      ),
    ),
  ),
)

delivered_jobs : enqueued_by delivered.schedule ≡ job_numbered 1003 ∷ []
unfolding play set_up
delivered_jobs = refl

process_batch_logs-completed_example :
    weigh numbered delivered.last.ledger.completed
      + weigh numbered delivered.last.ledger.pending_rows
      + weigh numbered delivered.last.ledger.unsaved
    ≡ weigh numbered
        (jobs_of job_tools 2020 built.event_ids (logs_between blocks 1 (batched.from_height - 1)))
process_batch_logs-completed_example =
    process_batch_logs-completed job_tools flaky (λ s. 9) watcher 2 blocks base_handler numbered 100
      roomy 2020 1 8 built numbered-IsStable refl built_filters flaky-AnswersFrom (omega arith)
      (omega arith) batched_run delivered-IsCalmEvent delivered.run
      (delivered_jobs ∙ sym batched_jobs) delivered_state.0
