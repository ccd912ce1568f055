-- ===== src/Pool/Processing.antt =====
-- ProcessJob of worker.go, which the worker calls on a job, and what it does with a BaseJob. Process
-- and SendCallbackJobs act on a world; the listeners that the worker hands on are a parameter.
use bridge_core.Stores.Blocks.{save_event}
use bridge_core.Pool.State.{Pool}
pub mod OfBase
use bridge_core.Prelude.{
  ℕ, ◌==◌, ◌&&◌, not, String, Bool, true, false, Option, none, some, List, [], ◌∷◌, ◌++◌,
  if◌then◌else◌,
}
use bridge_core.Prelude.Map.{string_eq}
use bridge_core.Prelude.Outcome.{Outcome, returns, panics}
use bridge_core.Types.{
  Transaction, Listener, listen_handler, Processing, process_panics, process_failed, value,
}
use bridge_core.Models.{Event}
use bridge_core.Job.Base.{BaseJob, Codec, process}
use bridge_core.Pool.Workers.{Verdict, succeeds, fails, crashes}

-- What ProcessJob asks of a job. SendCallbackJobs of the job's listener returns if the flag is true.
pub record JobWork (J L W : Type 0) : Type 0 where
  pub process_of : J → W → W × Processing
  pub get_type_of : J → ℕ
  pub get_subscription_name : J → String
  pub get_transaction : J → Transaction
  pub send_callback_jobs : J → L → String → Transaction → Option (List ℕ) → W → W × Bool

module _ {J L W : Type 0} (work : JobWork J L W) (listeners : L) where
  open work use {
    process_of, get_type_of, get_subscription_name, get_transaction, send_callback_jobs,
  }

  abbrev pub sends_callbacks : J → Bool
  sends_callbacks job =
      get_type_of job == listen_handler && not (string_eq.beq (get_subscription_name job) "")

  abbrev pub verdict_of : W × Bool → W × Verdict
  verdict_of (w, true) = (w, succeeds)
  verdict_of (w, false) = (w, crashes)

  abbrev pub call_back : J → Option (List ℕ) → W → W × Verdict
  call_back job val w =
      verdict_of
        (send_callback_jobs job listeners (get_subscription_name job) (get_transaction job) val w)

  abbrev pub after_process : J → W × Processing → W × Verdict
  after_process job (w, process_failed) = (w, fails)
  after_process job (w, process_panics) = (w, crashes)
  after_process job (w, value val) =
      if sends_callbacks job then call_back job val w else (w, succeeds)

  unfoldable pub process_job : J → W → W × Verdict
  process_job job w = after_process job (process_of job w)

-- A BaseJob at the clock `now`. Save of the event store and SendCallbackJobs of the job's listener,
-- which may panic, act on the world.
abbrev pub base_work :
    {L W : Type 0}
    → Codec
    → ℕ
    → (Event → W → W × Bool)
    → (BaseJob → L → String → Transaction → Option (List ℕ) → W → W × Bool)
    → JobWork BaseJob L W
base_work codec now save_event send_callbacks = record {
  process_of = process codec save_event now;
  get_type_of = λ e. e.job_type;
  get_subscription_name = λ e. e.subscription_name;
  get_transaction = λ e. e.tx;
  send_callback_jobs = send_callbacks;
}
