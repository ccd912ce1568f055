-- ===== src/Tests/BehindRuns.antt =====
-- Calls of processBehindBlock over a small chain.
use bridge_core.Prelude.{
  ℕ, suc, ◌+◌, ◌-◌, ◌%◌, ◌≤◌, ◌≡◌, refl, Option, none, some, List, [], ◌∷◌, ◌++◌, ◌==◌,
  if◌then◌else◌, false, true, arith, Bool-cases, inl, inr,
}
use bridge_core.Prelude.Outcome.{Outcome, returns}
use bridge_core.Types.{
  as_transaction, new_empty_transaction, Listener, Subscribe, Transaction, Block,
}
use bridge_core.Controller.Filters.{Filters, no_filters, add_subscriptions}
use bridge_core.Controller.Batch.Loop.{process_batch_logs, batch_loop, batch_round, batch_end}
use bridge_core.Controller.Logs.{process_logs}
use bridge_core.Controller.Batch.Jobs.{jobs_of, enqueued_jobs}
use bridge_core.Controller.Batch.Coverage.{AnswersFrom, logs_between}
use bridge_core.Controller.Behind.Txs.{TxTools, tx_loop, tx_jobs, process_txs}
use bridge_core.Controller.Behind.Range.{Serves, txs_between, tx_loop-twice}
use bridge_core.Controller.Behind.Blocks.{
  has_subscription_type, Work, Behind, worked, no_work, txs_part, logs_part, process_behind_block,
}
use bridge_core.Controller.Behind.Whole.{process_behind_block_lem, process_behind_block-tx_only}
use bridge_core.Tests.Batches.{gateway, deposits, blocks-HasTopic, blocks, flaky, tools}

abbrev withdrawals : Subscribe
withdrawals = record {
  from = "";
  to = "0x9";
  type_of = 0;
  handler = some (record {
    contract = "Gateway";
    name = "Withdraw";
    contract_address = "";
    listener = "";
    abi = some gateway;
    handle_method = "";
  });
  callbacks = [];
}

abbrev pub both : Listener
both = record {
  listener_name = "Ronin";
  subscriptions = ("Deposits", deposits) ∷ ("Withdrawals", withdrawals) ∷ [];
  is_disabled = false;
}

abbrev pub only_txs : Listener
only_txs = record {
  listener_name = "Ronin";
  subscriptions = ("Withdrawals", withdrawals) ∷ [];
  is_disabled = false;
}

abbrev call_in : ℕ → Transaction
call_in h = record {
  hash = 500 + h;
  from_address = "";
  to_address = "0x9";
  payload = 1 ∷ 2 ∷ 3 ∷ 4 ∷ 5 ∷ [];
  value = none;
}

-- Every block has one call of the contract.
abbrev pub block_at : ℕ → Block
block_at h = record { height = h; transactions = call_in h ∷ [] }

abbrev pub tx_tools : TxTools ℕ
tx_tools = record {
  get_receipt = λ h. some 1;
  bytes_hex = λ bs. "01020304";
  get_listen_handle_job = λ name tx method payload. some tx.hash;
}

-- Every attempt with an even number fails.
abbrev pub slow_block : ℕ → ℕ → Option Block
slow_block c h = if c % 2 == 0 then none else some (block_at h)

pub slow_block-Serves : Serves block_at 1 slow_block
slow_block-Serves = record {
  honest = λ c h b got. ground arith;
  patient = λ c h. elim (Bool-cases (c % 2 == 0)) [
    | inl even ↦ (1, omega arith, λ e. ground (arith, even))
    | inr odd ↦ (0, omega arith, λ e. ground (arith, odd))
  ];
}

tx_loop-twice_example :
    (js ks : List ℕ) × (tx_loop tx_tools slow_block both.subscriptions 20 0 1 3
      ≡ some (js ++ process_txs tx_tools both.subscriptions (block_at 3).transactions))
    × (tx_loop tx_tools slow_block both.subscriptions 20 0 3 6
        ≡ some (process_txs tx_tools both.subscriptions (block_at 3).transactions ++ ks))
tx_loop-twice_example =
    tx_loop-twice tx_tools both.subscriptions block_at 1 slow_block slow_block slow_block-Serves
      slow_block-Serves 20 1 3 6 (omega arith) (omega arith) (omega arith)

abbrev pub found_at : ℕ → Option Block
found_at h = some (block_at h)

only_txs-no_logs : has_subscription_type 1 only_txs.subscriptions ≡ false
unfolding has_subscription_type
only_txs-no_logs = refl

only_txs-asks : has_subscription_type 0 only_txs.subscriptions ≡ true
unfolding has_subscription_type
only_txs-asks = refl

pub both-logs : has_subscription_type 1 both.subscriptions ≡ true
unfolding has_subscription_type
both-logs = refl

both-txs : has_subscription_type 0 both.subscriptions ≡ true
unfolding has_subscription_type
both-txs = refl

process_behind_block-tx_only_example :
    process_behind_block tools tx_tools flaky (λ s. 9) only_txs 2 2 found_at slow_block 20 1 10
    ≡ some (returns (worked no_work))
process_behind_block-tx_only_example =
    process_behind_block-tx_only tools tx_tools flaky (λ s. 9) only_txs 2 2 found_at slow_block 20 1
      10 (block_at 8) only_txs-no_logs only_txs-asks (omega arith) (omega arith) refl

abbrev pub built_both : Filters
built_both = record {
  contract_addresses = 9 ∷ [];
  added_contract = (9, tt) ∷ [];
  filtered_methods = (1, ("Deposited", tt) ∷ ("Withdraw", tt) ∷ []) ∷ [];
  event_ids =
      (record { topic = 42; contract = 9 }, "Deposits")
      ∷ (record { topic = 0; contract = 9 }, "Withdrawals")
      ∷ [];
}

pub built_both_filters :
    add_subscriptions (λ s. 9) both.subscriptions no_filters ≡ returns built_both
unfolding add_subscriptions
built_both_filters = refl

pub flaky-AnswersFrom_both : AnswersFrom blocks built_both flaky
flaky-AnswersFrom_both = record {
  faithful = λ n a b ls e. ground arith;
  has_topics = blocks-HasTopic;
}

process_behind_block_lem_example :
    (w : Work ℕ) × (process_behind_block tools tx_tools flaky
        (λ s. 9)
        both
        2
        2
        found_at
        slow_block
        20
        1
        10
      ≡ some (returns (worked w)))
    × (1 ≤ w.processed_to_height)
    × (w.processed_to_height ≤ 8)
    × (enqueued_jobs w.log_effects
        ≡ jobs_of tools 2020 built_both.event_ids
            (logs_between blocks 1 (w.processed_to_height - 1)))
    × (w.tx_enqueued
        ≡ txs_between tx_tools both.subscriptions block_at 1 (suc (w.processed_to_height - 1)))
process_behind_block_lem_example =
    process_behind_block_lem tools tx_tools flaky (λ s. 9) both 2 2 found_at slow_block blocks
      block_at 1 2020 20 1 10 built_both (block_at 8) refl built_both_filters flaky-AnswersFrom_both
      slow_block-Serves both-logs both-txs (omega arith) refl (omega arith) (omega arith)
      (omega arith)

-- Blocks 1 to 8: one job of a log, and the eight calls.
abbrev jobs_in : Option (Outcome (Behind ℕ)) → List ℕ × List ℕ
jobs_in (some (returns (worked w))) = (enqueued_jobs w.log_effects, w.tx_enqueued)
jobs_in _ = ([], [])

behind_run :
    jobs_in
      (process_behind_block tools tx_tools flaky (λ s. 9) both 2 2 found_at slow_block 20 1 10)
    ≡ (1003 ∷ [], 501 ∷ 502 ∷ 503 ∷ 504 ∷ 505 ∷ 506 ∷ 507 ∷ 508 ∷ [])
unfolding process_behind_block logs_part txs_part tx_loop process_txs tx_jobs process_batch_logs
    batch_loop batch_round batch_end process_logs add_subscriptions has_subscription_type
    as_transaction new_empty_transaction
behind_run = refl
