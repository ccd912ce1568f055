-- ===== src/Tests/ListeningRuns.antt =====
-- Rounds and attempts of startListening over a small chain.
use bridge_core.Controller.Batch.Current.{Keeper, IsKeeper, after_effects, StandsAt}
use bridge_core.Tests.Batches.{flaky, tools, blocks}
use bridge_core.Controller.Batch.Coverage.{logs_between, AnswersFrom}
use bridge_core.Types.{as_transaction, new_empty_transaction, Block}
use bridge_core.Controller.Filters.{add_subscriptions}
use bridge_core.Controller.Behind.Txs.{tx_jobs, process_txs, tx_loop}
use bridge_core.Tests.BehindRuns.{
  block_at, both-logs, slow_block, found_at, built_both, flaky-AnswersFrom_both, built_both_filters,
  tx_tools, slow_block-Serves, both,
}
use bridge_core.Controller.Listening.Attempts.{start_listening_lem, count_up}
use bridge_core.Controller.Batch.Loop.{batch_loop, batch_round, process_batch_logs, batch_end, Node}
use bridge_core.Controller.Logs.{process_logs}
use bridge_core.Controller.Batch.Jobs.{jobs_of}
use bridge_core.Controller.Behind.Blocks.{
  process_behind_block, logs_part, has_subscription_type, txs_part,
}
use bridge_core.Controller.Listening.Start.{start_listening, Started, closes_listener}
use bridge_core.Controller.Listening.Delivery.{Steady, rounds_jobs, watch-delivers}
use bridge_core.Controller.Listening.Watch.{Moment, watch_round, watch, behind_at, Round}
use bridge_core.Prelude.{
  ℕ, List, Option, ◌≤◌, ◌-◌, refl, arith, ◌∷◌, some, false, ◌≡◌, ◌≢◌, Bool, true, ◌↔◌, none, [],
}

-- Every other question for logs fails, and every block is found.
abbrev steady_node : Node
steady_node = record flaky { get_block = λ n h. some (block_at h) }

steady_node-AnswersFrom : AnswersFrom blocks built_both steady_node
steady_node-AnswersFrom = record {
  faithful = flaky-AnswersFrom_both.faithful;
  has_topics = flaky-AnswersFrom_both.has_topics;
}

-- A listener that keeps the block that it is handed.
abbrev keeper : Keeper (Option Block)
keeper = record { get_current_block = λ s. s; update_current_block = λ b s. b }

keeper-IsKeeper : IsKeeper keeper
keeper-IsKeeper = record { takes = λ b s. refl }

abbrev moment_at : ℕ → Moment
moment_at latest = record {
  context_done = false;
  pool_closed = false;
  latest_height = some latest;
  current_block = none;
  node = steady_node;
  get_safe_block = found_at;
  tx_block = slow_block;
  tx_fuel = 100;
}

abbrev deaf_moment : Moment
deaf_moment = record (moment_at 12) { latest_height = none }

abbrev three_moments : List Moment
three_moments = moment_at 10 ∷ deaf_moment ∷ moment_at 11 ∷ []

abbrev height_of : Option Block → ℕ
height_of none = 0
height_of (some b) = b.height

abbrev jobs_and_height : Option (List (Round ℕ) × Bool × Option Block) → List ℕ × Bool × ℕ
jobs_and_height none = ([], false, 0)
jobs_and_height (some (rs, alive, s)) = (rounds_jobs rs, alive, height_of s)

-- The log of block 3 becomes a job in the first round, and the listener ends at the last safe block.
watch_run :
    jobs_and_height
      (watch keeper tools tx_tools (λ s. 9) both 2 2 three_moments (some (block_at 1)))
    ≡ (1003 ∷ [], true, 9)
unfolding watch watch_round process_behind_block logs_part txs_part tx_loop process_txs tx_jobs
    process_batch_logs batch_loop batch_round batch_end process_logs add_subscriptions
    has_subscription_type as_transaction new_empty_transaction after_effects
watch_run = refl

moment_at-Steady :
    (latest : ℕ)
    → 2 ≤ latest
    → latest ≤ 40
    → Steady keeper tools tx_tools
        (λ s. 9)
        both
        2
        2
        blocks
        block_at
        1
        2020
        built_both
        (moment_at latest)
moment_at-Steady latest above small = record {
  going = refl;
  pool_open = refl;
  known = refl;
  answers = steady_node-AnswersFrom;
  serves = slow_block-Serves;
  height_of = λ a b e. ground (arith, e);
  finds = λ l e n a le. (block_at a, refl, refl);
  fits = λ l e. ground (arith, e);
}

deaf-Steady :
    Steady keeper tools tx_tools (λ s. 9) both 2 2 blocks block_at 1 2020 built_both deaf_moment
deaf-Steady = record {
  going = refl;
  pool_open = refl;
  known = refl;
  answers = steady_node-AnswersFrom;
  serves = slow_block-Serves;
  height_of = λ a b e. ground (arith, e);
  finds = λ l e n a le. (block_at a, refl, refl);
  fits = λ l e. cc;
}

watch-delivers_example :
    (rs : List (Round ℕ)) × (s' : Option Block) × (h' : ℕ) × (watch keeper tools tx_tools
        (λ s. 9)
        both
        2
        2
        three_moments
        (some (block_at 1))
      ≡ some (rs, true, s'))
    × StandsAt keeper s' h'
    × (1 ≤ h')
    × (rounds_jobs rs ≡ jobs_of tools 2020 built_both.event_ids (logs_between blocks 1 (h' - 1)))
watch-delivers_example =
    watch-delivers keeper tools tx_tools (λ s. 9) both 2 2 blocks block_at 1 2020 built_both
      keeper-IsKeeper built_both_filters both-logs three_moments (some (block_at 1)) 1
      (
        moment_at-Steady 10 (omega arith) (omega arith),
        (deaf-Steady, (moment_at-Steady 11 (omega arith) (omega arith), tt)),
      )
      (block_at 1, refl, refl)

-- The latest height is never known.
abbrev deaf_attempts : ℕ → Moment
deaf_attempts n = deaf_moment

abbrev pauses : Option (Started ℕ) → List ℕ
pauses none = []
pauses (some s) = s.slept

deaf_run :
    pauses (start_listening tools tx_tools (λ s. 9) both 2 2 0 deaf_attempts 11 0 0 0)
    ≡ 1 ∷ 2 ∷ 3 ∷ 4 ∷ 5 ∷ 6 ∷ 7 ∷ 8 ∷ 9 ∷ 10 ∷ []
unfolding start_listening
deaf_run = refl

abbrev no_block_moment : ℕ → Moment
no_block_moment n = record deaf_moment { get_safe_block = λ h. none }

no_block_moment-ends :
    (n h latest : ℕ)
    → behind_at tools tx_tools (λ s. 9) both 2 2 (no_block_moment n) h latest ≢ none
unfolding process_behind_block
no_block_moment-ends n h latest = ground arith

start_listening_lem_example :
    (s : Started ℕ) × (start_listening tools tx_tools (λ s. 9) both 2 2 0 no_block_moment 11 0 0 0
      ≡ some s)
    × (n : ℕ) × (n ≤ 10)
    × (s.slept ≡ count_up 1 n)
    × ((s.ending ≡ closes_listener) ↔ (n ≡ 10))
start_listening_lem_example =
    start_listening_lem tools tx_tools (λ s. 9) both 2 2 0 no_block_moment no_block_moment-ends 10 0
      11 0 0 (omega arith) (omega arith)
