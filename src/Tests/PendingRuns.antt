-- ===== src/Tests/PendingRuns.antt =====
-- Runs of processPendingJobs over a table of two rows.
use bridge_core.Prelude.{
  ℕ, ◌≡◌, refl, String, false, Option, none, some, List, [], ◌∷◌, ◌++◌, take, arith,
}
use bridge_core.Prelude.Map.{string_eq}
use bridge_core.Types.{Listener}
use bridge_core.Models.{JobRow}
use bridge_core.Controller.Pending.Rows.{
  World, open_state, executed, pending_row, listener_row, pending_rows, pending_loop,
  process_pending_jobs,
}
use bridge_core.Controller.Pending.Delivery.{Works, valid_jobs, process_pending_jobs_lem}
use bridge_core.Controller.Pending.Stuck.{pending_loop-open}
use bridge_core.Tests.Samples.{quiet_listener}

abbrev pub row : ℕ → String → JobRow
row n method = record {
  id = n;
  listener = "Ronin";
  subscription_name = "Deposited";
  job_type = 1;
  retry_count = 0;
  status = "pending";
  payload = "0x";
  transaction = "0x";
  created_at = 5;
  from_chain_id = "0x7e4";
  method = method;
}

-- The pending rows, and the ids of the jobs that the pool was given.
pub record Desk : Type 0 where
  pub rows : List JobRow
  pub given : List ℕ

abbrev pub tail : List JobRow → List JobRow
tail [] = []
tail (r ∷ rs) = rs

abbrev pub first_row_leaves : Desk → Desk
first_row_leaves d = record d { rows = tail d.rows }

abbrev pub working : World Desk ℕ
working = record {
  is_done = λ d. false;
  search_jobs = λ q d. (d, some (take 200 d.rows));
  update = λ r d. first_row_leaves d;
  listener_update = λ l r d. first_row_leaves d;
  new_job_from_db = λ l r d. (d, some r.id);
  execute = λ f d. ((f d).0, executed (f d).1);
  enqueue = λ j d. record d { given = d.given ++ j ∷ [] };
}

abbrev pub listeners : List (String × Listener)
listeners = ("Ronin", quiet_listener) ∷ []

abbrev pub desk : Desk
desk = record { rows = row 7 "mint" ∷ row 8 "" ∷ []; given = [] }

abbrev pub working-Works : Works working listeners 100
working-Works = record {
  table = λ d. d.rows;
  queue = λ d. d.given;
  job_of = λ r. r.id;
  not_done = λ d. refl;
  finds = λ d. refl;
  update_table = λ d r rs e. rw e refl;
  update_queue = λ d r. refl;
  listener_update_table = λ d l r rs e. rw e refl;
  listener_update_queue = λ d l r. refl;
  loads = λ d l r. refl;
  executes = λ f d. refl;
  enqueue_table = λ d j. refl;
  enqueue_queue = λ d j. refl;
}

abbrev outcome : Option Desk → Option (List JobRow × List ℕ)
outcome none = none
outcome (some d) = some (d.rows, d.given)

-- The callback without a method is marked as failed, the other row becomes a job.
pending_run : outcome (process_pending_jobs working listeners 100 3 desk) ≡ some ([], 7 ∷ [])
unfolding process_pending_jobs pending_loop pending_rows pending_row listener_row
pending_run = refl

process_pending_jobs_lem_example :
    (d : Desk) × (process_pending_jobs working listeners 100 3 desk ≡ some d)
    × (d.rows ≡ [])
    × (d.given ≡ [] ++ valid_jobs (λ r. r.id) desk.rows)
process_pending_jobs_lem_example =
    process_pending_jobs_lem working listeners 100 working-Works 3 desk
      ((quiet_listener, refl, refl), ((quiet_listener, refl, refl), tt)) (omega arith)
      (λ e. ground (arith, e))

abbrev tripped : World Desk ℕ
tripped = record working { execute = λ f d. (d, open_state) }

pending_loop-open_example : pending_loop tripped listeners 100 1000 desk ≡ none
pending_loop-open_example =
    pending_loop-open tripped listeners 100 1000 desk quiet_listener (row 7 "mint") (row 8 "" ∷ [])
      refl refl refl refl refl refl
