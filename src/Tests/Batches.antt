-- ===== src/Tests/Batches.antt =====
-- A call of processBatchLogs over a small chain.
use bridge_core.Prelude.{
  ℕ, ◌+◌, ◌-◌, ◌≤◌, ◌≡◌, ◌⊎◌, inl, inr, refl, Option, none, some, List, [], ◌∷◌, ◌==◌,
  if◌then◌else◌, All, false, Bool-cases, arith,
}
use bridge_core.Prelude.Outcome.{Outcome, returns}
use bridge_core.Types.{
  as_transaction, new_empty_transaction, Log, Listener, Subscribe, Handler, Abi,
}
use bridge_core.Controller.Filters.{Filters, no_filters, add_subscriptions}
use bridge_core.Controller.Logs.{LogTools, process_logs}
use bridge_core.Controller.Batch.Loop.{
  Node, BatchState, batch_end, batch_round, batch_loop, process_batch_logs,
}
use bridge_core.Controller.Batch.Jobs.{HasTopic, jobs_of, enqueued_jobs}
use bridge_core.Controller.Batch.Coverage.{
  Covers, logs_between, AnswersFrom, process_batch_logs_lem,
}

abbrev pub gateway : Abi
gateway = record {
  pointer = 1;
  methods = [];
  events = ("Deposited", record { id = 42; event_inputs = none }) ∷ [];
}

abbrev pub deposits_handler : Handler
deposits_handler = record {
  contract = "Gateway";
  name = "Deposited";
  contract_address = "";
  listener = "";
  abi = some gateway;
  handle_method = "";
}

abbrev pub deposits : Subscribe
deposits = record {
  from = "";
  to = "0x9";
  type_of = 1;
  handler = some deposits_handler;
  callbacks = [];
}

abbrev pub watcher : Listener
watcher = record {
  listener_name = "Ronin";
  subscriptions = ("Deposits", deposits) ∷ [];
  is_disabled = false;
}

-- One event in block 3 belongs to the subscription, one in block 5 does not.
abbrev pub event_at : ℕ → ℕ → Log
event_at h topic = record {
  topics = topic ∷ [];
  address = 9;
  tx_hash = 1000 + h;
  log_data = [];
  block_number = h;
}

abbrev pub blocks : ℕ → List Log
blocks h = if h == 3 then event_at 3 42 ∷ [] else (if h == 5 then event_at 5 43 ∷ [] else [])

-- The first question fails.
abbrev pub flaky : Node
flaky = record {
  get_chain_id = some 2020;
  filter_logs = λ f n a b. if n == 0 then none else some (logs_between blocks a (b + 1 - a));
  get_block = λ n h. none;
}

abbrev pub tools : LogTools ℕ
tools = record {
  marshal = λ l. some [];
  topic_hex = λ t. "0x";
  address_hex = λ a. "0x9";
  get_listen_handle_job = λ name tx topic payload. some tx.hash;
}

abbrev pub built : Filters
built = record {
  contract_addresses = 9 ∷ [];
  added_contract = (9, tt) ∷ [];
  filtered_methods = (1, ("Deposited", tt) ∷ []) ∷ [];
  event_ids = (record { topic = 42; contract = 9 }, "Deposits") ∷ [];
}

pub built_filters : add_subscriptions (λ s. 9) watcher.subscriptions no_filters ≡ returns built
unfolding add_subscriptions
built_filters = refl

pub event_at-HasTopic : (h topic : ℕ) → HasTopic (event_at h topic)
event_at-HasTopic h topic e = cc

pub blocks-HasTopic : (h : ℕ) → All HasTopic (blocks h)
blocks-HasTopic h = elim (Bool-cases (h == 3)) [
  | inl at_three ↦ rw at_three (event_at-HasTopic 3 42, tt)
  | inr other ↦ rw other (elim (Bool-cases (h == 5)) [
    | inl at_five ↦ rw at_five (event_at-HasTopic 5 43, tt)
    | inr none_here ↦ rw none_here tt
  ])
]

pub flaky-AnswersFrom : AnswersFrom blocks built flaky
flaky-AnswersFrom = record { faithful = λ n a b ls e. ground arith; has_topics = blocks-HasTopic }

-- The run from block 1 to block 8 in batches of two: block 3 gives the one job, and the failed
-- question is asked again.
abbrev summary : Option (Outcome (BatchState ℕ)) → List ℕ × ℕ × ℕ
summary (some (returns r)) = (enqueued_jobs r.trace, r.from_height, r.retry)
summary _ = ([], 0, 0)

batches_run : summary (process_batch_logs tools flaky (λ s. 9) watcher 2 1 8) ≡ (1003 ∷ [], 8, 1)
unfolding process_batch_logs batch_loop batch_round batch_end process_logs add_subscriptions
    as_transaction new_empty_transaction
batches_run = refl

process_batch_logs_lem_example :
    (r : BatchState ℕ) × (process_batch_logs tools flaky (λ s. 9) watcher 2 1 8 ≡ some (returns r))
    × (1 ≤ r.from_height)
    × (r.from_height ≤ 8)
    × ((r.from_height ≡ 8) ⊎ (r.retry ≡ 10))
    × Covers 1 r.trace r.from_height
    × (enqueued_jobs r.trace
        ≡ jobs_of tools 2020 built.event_ids (logs_between blocks 1 (r.from_height - 1)))
process_batch_logs_lem_example =
    process_batch_logs_lem tools flaky (λ s. 9) watcher 2 blocks 2020 1 8 built refl built_filters
      flaky-AnswersFrom (omega arith) (omega arith)
