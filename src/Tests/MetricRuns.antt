-- ===== src/Tests/MetricRuns.antt =====
-- The pusher that RunPusher sets up.
use bridge_core.Prelude.{true, false, ◌≡◌, refl, not, ◌&&◌, none}
use bridge_core.Prelude.Int.{negsuc}
use bridge_core.Prelude.Outcome.{Outcome, returns, panics}
use bridge_core.Metrics.Pusher.{
  Pusher, new_pusher, incr_counter, add_counter, add_gauge, add_histogram, add_counter_with_label,
}
use bridge_core.Metrics.Registered.{
  perform, perform_all, added, is_error, is_panic, is_negative, incr_counter-added,
}
use bridge_core.Metrics.Run.{
  run_uses, processed_success_job_metric, success_task_metric, failed_task_metric,
}

abbrev pusher_of : Outcome Pusher → Pusher
pusher_of (returns p) = p
pusher_of panics = new_pusher ""

abbrev run_pusher_state : Pusher
run_pusher_state = pusher_of (perform_all run_uses (new_pusher "one"))

runs : perform_all run_uses (new_pusher "one") ≡ returns run_pusher_state
unfolding perform_all perform add_counter add_gauge add_histogram
runs = refl

incr_counter-added_example :
    (is_error (incr_counter processed_success_job_metric (negsuc 0) run_pusher_state)
      ≡ not (added processed_success_job_metric run_uses))
    × (is_panic (incr_counter processed_success_job_metric (negsuc 0) run_pusher_state)
        ≡ added processed_success_job_metric run_uses && is_negative (negsuc 0))
incr_counter-added_example =
    incr_counter-added processed_success_job_metric "one" (negsuc 0) run_uses runs

-- A nil map of labels.
nil_labels : add_counter_with_label "one" "" none (new_pusher "one") ≡ panics
unfolding add_counter_with_label
nil_labels = refl

jobs_counted : added processed_success_job_metric run_uses ≡ true
jobs_counted = refl

-- No counter exists for the successful and the failed tasks.
tasks_not_counted : added success_task_metric run_uses ≡ false
tasks_not_counted = refl

failed_tasks_not_counted : added failed_task_metric run_uses ≡ false
failed_tasks_not_counted = refl
