-- ===== src/Controller/Logs.antt =====
-- The loop of processBatchLogs over the logs of one answer: the jobs of the logs that belong to a
-- subscription, and the blocks that they stand in. A log without topics makes it panic.
use bridge_core.Prelude.{ℕ, String, Option, none, some, List, [], ◌∷◌, ◌++◌}
use bridge_core.Prelude.Map.{lookup, insert, nat_eq}
use bridge_core.Prelude.Outcome.{Outcome, returns, panics, ◌>>=◌}
use bridge_core.Types.{Log, Transaction, new_empty_transaction, as_transaction}
use bridge_core.Controller.Filters.{EventMapKey, key_eq}

-- What the application and the libraries answer: json.Marshal of a log, Hash.Hex, Address.Hex and the
-- listener's GetListenHandleJob, which may decline a log by returning nil.
pub record LogTools (J : Type 0) : Type 0 where
  pub marshal : Log → Option (List ℕ)
  pub topic_hex : ℕ → String
  pub address_hex : ℕ → String
  pub get_listen_handle_job : String → Transaction → String → List ℕ → Option J

pub record Processed (J : Type 0) : Type 0 where
  pub processed_blocks : List (ℕ × Unit {0})
  pub jobs : List (Option J)

module _ {J : Type 0} (tools : LogTools J) (chain_id : ℕ)
    (event_ids : List (EventMapKey × String)) where
  -- The transaction that stands for a log.
  abbrev pub log_transaction : Log → Transaction
  log_transaction l =
      as_transaction tools.address_hex
        (new_empty_transaction chain_id l.tx_hash l.log_data none (some l.address))

  abbrev pub log_job : ℕ → Log → String → List ℕ → Option J
  log_job event_id l name payload =
      tools.get_listen_handle_job name (log_transaction l) (tools.topic_hex event_id) payload

  abbrev pub add_job : ℕ → Log → Option String → Option (List ℕ) → Processed J → Processed J
  add_job event_id l none payload done = done
  add_job event_id l (some name) none done = done
  add_job event_id l (some name) (some payload) done = record {
    processed_blocks = insert l.block_number tt done.processed_blocks;
    jobs = done.jobs ++ log_job event_id l name payload ∷ [];
  }

  unfoldable pub process_log : List ℕ → Log → Processed J → Outcome (Processed J)
  process_log [] l done = panics
  process_log (event_id ∷ _) l done = returns (
      add_job event_id l (lookup (record { topic = event_id; contract = l.address }) event_ids)
        (tools.marshal l) done)

  unfoldable pub process_logs : List Log → Processed J → Outcome (Processed J)
  unfolding process_log
  process_logs [] done = returns done
  process_logs (l ∷ ls) done = do done' ← process_log l.topics l done; process_logs ls done'
