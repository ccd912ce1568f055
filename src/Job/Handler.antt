-- ===== src/Job/Handler.antt =====
-- BaseJob implements the interface that the pool asks for.
use bridge_core.Prelude.{refl}
use bridge_core.Types.{JobHandler, IsJobHandler}
use bridge_core.Job.Base.{BaseJob, increase_retry_count, update_next_try}

abbrev pub base_handler : JobHandler BaseJob
base_handler = record {
  get_type = λ e. e.job_type;
  get_retry_count = λ e. e.retry_count;
  get_max_try = λ e. e.max_try;
  get_back_off = λ e. e.back_off;
  get_next_try = λ e. e.next_try;
  increase_retry_count = increase_retry_count;
  update_next_try = update_next_try;
}

pub base_handler-IsJobHandler : IsJobHandler base_handler
unfolding increase_retry_count update_next_try
base_handler-IsJobHandler = record {
  retry_count-increase = λ j. refl;
  max_try-increase = λ j. refl;
  back_off-increase = λ j. refl;
  next_try-update = λ t j. refl;
  retry_count-update = λ t j. refl;
  max_try-update = λ t j. refl;
  back_off-update = λ t j. refl;
}
