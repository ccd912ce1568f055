-- ===== src/Tests/Samples.antt =====
-- Sample data for the tests.
use bridge_core.Prelude.{ℕ, false, none, List, [], ◌∷◌, inl, inr, Option-cases}
use bridge_core.Prelude.Int.{pos}
use bridge_core.Types.{Listener, Transaction}
use bridge_core.Job.Base.{BaseJob}
use bridge_core.Job.Handler.{base_handler}
use bridge_core.Pool.State.{Config, Pool}
use bridge_core.Pool.System.{Event, step, Run, here, next}
use bridge_core.Pool.Safety.Start.{fresh_pool}

abbrev pub quiet_listener : Listener
quiet_listener = record { listener_name = "Ronin"; subscriptions = []; is_disabled = false }

abbrev pub transfer : Transaction
transfer = record {
  hash = 77;
  from_address = "";
  to_address = "0x1";
  payload = 1 ∷ 2 ∷ [];
  value = none;
}

abbrev pub job_numbered : ℕ → BaseJob
job_numbered n = record {
  id = pos n;
  job_type = 0;
  retry_count = 0;
  max_try = 2;
  next_try = 0;
  back_off = 5;
  bytes = 1 ∷ 2 ∷ [];
  tx = transfer;
  subscription_name = "Deposited";
  listener = quiet_listener;
  from_chain_id = 2020;
  created_at = 50;
}

abbrev pub one_worker : Config
one_worker = record { number_of_workers = 1; max_queue_size = 2; max_retry = 3; back_off = 5 }

abbrev pub idle_pool : Pool BaseJob
idle_pool = fresh_pool BaseJob 100 one_worker

-- A state with the schedule that led to it.
pub record Played (p : Pool BaseJob) : Type 0 where
  pub schedule : List (Event BaseJob)
  pub last : Pool BaseJob
  pub run : Run base_handler p schedule last

-- One more event, if it is enabled.
play_one : {p : Pool BaseJob} → Event BaseJob → Played p → Played p
play_one e s = elim (Option-cases (step base_handler e s.last)) [
  | inl _ ↦ s
  | inr (q, moved) ↦ record { schedule = e ∷ s.schedule; last = q; run = next s.run moved }
]

unfoldable pub play : {p : Pool BaseJob} → List (Event BaseJob) → Played p → Played p
unfolding play_one Option-cases step
play [] s = s
play (e ∷ es) s = play es (play_one e s)

abbrev pub begin_at : (p : Pool BaseJob) → Played p
begin_at p = record { schedule = []; last = p; run = here }
