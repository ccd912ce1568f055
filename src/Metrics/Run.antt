-- ===== src/Metrics/Run.antt =====
-- metrics.go: the names of the metrics, and those that RunPusher adds to the pusher.
use bridge_core.Prelude.{String, List, [], ◌∷◌}
use bridge_core.Prelude.Outcome.{Outcome}
use bridge_core.Metrics.Pusher.{Pusher, new_pusher}
use bridge_core.Metrics.Registered.{
  Use, uses_add_counter, uses_add_gauge, uses_add_histogram, perform_all,
}

abbrev pub preparing_failed_job_metric : String
preparing_failed_job_metric = "jobs_prepare_failed"

abbrev pub preparing_success_job_metric : String
preparing_success_job_metric = "jobs_prepare_success"

abbrev pub processing_job_metric : String
processing_job_metric = "jobs_processing"

abbrev pub processed_success_job_metric : String
processed_success_job_metric = "jobs_success"

abbrev pub processed_failed_job_metric : String
processed_failed_job_metric = "jobs_failed"

abbrev pub pending_task_metric : String
pending_task_metric = "Ronin_tasks_pending"

abbrev pub processing_task_metric : String
processing_task_metric = "Ronin_tasks_processing"

abbrev pub success_task_metric : String
success_task_metric = "Ronin_tasks_success"

abbrev pub failed_task_metric : String
failed_task_metric = "Ronin_tasks_failed"

abbrev pub withdrawal_task_metric : String
withdrawal_task_metric = "Ronin_tasks_withdrawal"

abbrev pub deposit_task_metric : String
deposit_task_metric = "Ronin_tasks_deposit"

abbrev pub ack_withdrawal_task_metric : String
ack_withdrawal_task_metric = "Ronin_tasks_acknowledgeWithdrawal"

abbrev pub kms_success_sign : String
kms_success_sign = "kms_success"

abbrev pub kms_network_failure : String
kms_network_failure = "kms_failure_network"

abbrev pub kms_internal_failure : String
kms_internal_failure = "kms_failure_internal"

abbrev pub kms_sign_latency : String
kms_sign_latency = "kms_latency"

abbrev pub kms_last_success : String
kms_last_success = "kms_lastSuccess"

-- The calls of RunPusher on the new pusher, in their order.
abbrev pub run_uses : List Use
run_uses =
    uses_add_counter preparing_failed_job_metric
      "count number of preparing jobs failed to added to database"
    ∷ uses_add_counter preparing_success_job_metric
        "count number of preparing jobs added to database successfully and switch to new "
    ∷ uses_add_gauge processing_job_metric "count number of processing jobs in jobChan"
    ∷ uses_add_counter processed_success_job_metric "count number of processed jobs successfully"
    ∷ uses_add_counter processed_failed_job_metric "count number of failed jobs"
    ∷ uses_add_counter pending_task_metric "count number of pending tasks in queue"
    ∷ uses_add_gauge processing_task_metric "count number of processing tasks"
    ∷ uses_add_counter processed_success_job_metric "count number of success tasks"
    ∷ uses_add_counter processed_failed_job_metric "count number failed tasks"
    ∷ uses_add_counter withdrawal_task_metric "count number of ronin’s withdrawal tasks occurred"
    ∷ uses_add_counter deposit_task_metric "count number of ronin’s deposit tasks occurred"
    ∷ uses_add_counter ack_withdrawal_task_metric
        "count number of ronin acknowledge withdrawal tasks occurred"
    ∷ uses_add_counter kms_success_sign "count number of successful KMS signs"
    ∷ uses_add_counter kms_network_failure "count number of failed KMS signs due to network"
    ∷ uses_add_counter kms_internal_failure "count number of KMS server error responses"
    ∷ uses_add_histogram kms_sign_latency
        "the latency of signing request to KMS server in milliseconds"
    ∷ uses_add_gauge kms_last_success "timestamp of last KMS successful signs"
    ∷ []

unfoldable pub run_pusher : String → Outcome Pusher
unfolding perform_all
run_pusher instance_name = perform_all run_uses (new_pusher instance_name)
