-- ===== src/Controller/Behind/Whole.antt =====
-- A whole call of processBehindBlock.
use bridge_core.Prelude.{
  ℕ, zero, suc, ◌+◌, ◌-◌, ◌*◌, ◌^◌, ◌≤◌, ◌<◌, ◌≡◌, refl, String, true, false, Option, some, List,
  arith, Bool-cases, inl, inr, [],
}
use bridge_core.Prelude.Outcome.{returns}
use bridge_core.Types.{Log, Block, Listener, tx_event, log_event}
use bridge_core.Controller.Filters.{Filters, no_filters, add_subscriptions}
use bridge_core.Controller.Logs.{LogTools}
use bridge_core.Controller.Batch.Loop.{Node, BatchState, process_batch_logs}
use bridge_core.Controller.Batch.Jobs.{jobs_of, enqueued_jobs}
use bridge_core.Controller.Batch.Coverage.{AnswersFrom, logs_between, process_batch_logs_lem}
use bridge_core.Controller.Behind.Txs.{TxTools, tx_loop}
use bridge_core.Controller.Behind.Range.{Serves, txs_between, tx_loop_lem, times_mono}
use bridge_core.Controller.Behind.Blocks.{
  has_subscription_type, sub64, Work, worked, no_work, txs_part, logs_part, process_behind_block,
}

module _ {J : Type 0} (tools : LogTools J) (tx_tools : TxTools J) (node : Node)
    (hex_to_address : String → ℕ) (listener : Listener) (batch_size safe_block_range : ℕ)
    (get_safe_block : ℕ → Option Block) (tx_block : ℕ → ℕ → Option Block) where
  -- A listener with a subscription to transactions and none to logs: from every height but 0, a call
  -- that finds the safe block does no work at all, whatever the blocks hold.
  pub process_behind_block-tx_only :
      (fuel height latest : ℕ) (safe_block : Block)
      → has_subscription_type log_event listener.subscriptions ≡ false
      → has_subscription_type tx_event listener.subscriptions ≡ true
      → 1 ≤ height
      → 1 ≤ fuel
      → get_safe_block (sub64 latest safe_block_range) ≡ some safe_block
      → process_behind_block tools tx_tools node hex_to_address listener batch_size safe_block_range
          get_safe_block tx_block fuel height latest
        ≡ some (returns (worked no_work))
  unfolding process_behind_block logs_part txs_part tx_loop
  process_behind_block-tx_only zero height latest safe_block no_logs txs h f found =
      absurd (omega arith)
  process_behind_block-tx_only (suc fuel) height latest safe_block no_logs txs h f found =
      ground (arith, no_logs, txs, found)

  -- Let a listener have subscriptions to logs and to transactions, and let its last safe block be above
  -- the height. Under the conditions under which processBatchLogs delivers, and with a GetBlock that
  -- answers from a chain, for each block at the latest at the k-th attempt after the first, a call
  -- with fuel for all these attempts ends: the jobs of logs that it enqueued are those of the chain's
  -- logs from the height up to, not including, the height that processBatchLogs returned, which is
  -- at most the safe block's; the jobs of transactions are those of the same blocks and of the block
  -- at the returned height.
  pub process_behind_block_lem :
      (chain : ℕ → List Log) (blocks : ℕ → Block) (k chain_id fuel height latest : ℕ) (f : Filters)
      (safe_block : Block)
      → node.get_chain_id ≡ some chain_id
      → add_subscriptions hex_to_address listener.subscriptions no_filters ≡ returns f
      → AnswersFrom chain f node
      → Serves blocks k tx_block
      → has_subscription_type log_event listener.subscriptions ≡ true
      → has_subscription_type tx_event listener.subscriptions ≡ true
      → height < sub64 latest safe_block_range
      → get_safe_block (sub64 latest safe_block_range) ≡ some safe_block
      → height ≤ safe_block.height
      → safe_block.height + batch_size < 2 ^ 64
      → k + (safe_block.height - height) * (k + 1) + 1 < fuel
      → (w : Work J) × (process_behind_block tools tx_tools node hex_to_address listener batch_size
            safe_block_range get_safe_block tx_block fuel height latest
          ≡ some (returns (worked w)))
        × (height ≤ w.processed_to_height)
        × (w.processed_to_height ≤ safe_block.height)
        × (enqueued_jobs w.log_effects
            ≡ jobs_of tools chain_id f.event_ids
                (logs_between chain height (w.processed_to_height - height)))
        × (w.tx_enqueued
            ≡ txs_between tx_tools listener.subscriptions blocks height
                (suc (w.processed_to_height - height)))
  unfolding process_behind_block logs_part txs_part
  process_behind_block_lem chain blocks k chain_id fuel height latest f safe_block known built
        answers serves logs txs behind found ordered fits enough =
      let (r, ran, low, high, why, covers, jobs) =
        process_batch_logs_lem tools node hex_to_address listener batch_size chain chain_id height
          safe_block.height f known built answers fits ordered in
      let looped =
        tx_loop_lem tx_tools listener.subscriptions blocks k tx_block serves r.from_height fuel
          height low
          (times_mono (r.from_height - height) (safe_block.height - height) k fuel (omega arith)
            enough) in
      (
        record {
          processed_to_height = r.from_height;
          log_effects = r.trace;
          tx_enqueued =
              txs_between tx_tools listener.subscriptions blocks height
                (suc (r.from_height - height));
        },
        ground (arith, behind, found, logs, ran, txs, looped),
        low,
        high,
        jobs,
        refl,
      )

  -- The same for a listener with a subscription to logs, whether or not it has one to transactions,
  -- with the call of processBatchLogs that it makes.
  pub process_behind_block-logs :
      (chain : ℕ → List Log) (blocks : ℕ → Block) (k chain_id fuel height latest : ℕ) (f : Filters)
      (safe_block : Block)
      → node.get_chain_id ≡ some chain_id
      → add_subscriptions hex_to_address listener.subscriptions no_filters ≡ returns f
      → AnswersFrom chain f node
      → Serves blocks k tx_block
      → has_subscription_type log_event listener.subscriptions ≡ true
      → height < sub64 latest safe_block_range
      → get_safe_block (sub64 latest safe_block_range) ≡ some safe_block
      → height ≤ safe_block.height
      → safe_block.height + batch_size < 2 ^ 64
      → k + (safe_block.height - height) * (k + 1) + 1 < fuel
      → (w : Work J) × (r : BatchState J) × (process_behind_block tools tx_tools node hex_to_address
            listener batch_size safe_block_range get_safe_block tx_block fuel height latest
          ≡ some (returns (worked w)))
        × (process_batch_logs tools node hex_to_address listener batch_size height safe_block.height
            ≡ some (returns r))
        × (w.log_effects ≡ r.trace)
        × (height ≤ r.from_height)
        × (enqueued_jobs w.log_effects
            ≡ jobs_of tools chain_id f.event_ids
                (logs_between chain height (r.from_height - height)))
  unfolding process_behind_block logs_part txs_part
  process_behind_block-logs chain blocks k chain_id fuel height latest f safe_block known built
        answers serves logs behind found ordered fits enough =
      let (r, ran, low, high, why, covers, jobs) =
        process_batch_logs_lem tools node hex_to_address listener batch_size chain chain_id height
          safe_block.height f known built answers fits ordered in
      elim (Bool-cases (has_subscription_type tx_event listener.subscriptions)) [
        | inl txs ↦
            let looped =
              tx_loop_lem tx_tools listener.subscriptions blocks k tx_block serves r.from_height
                fuel height low
                (times_mono (r.from_height - height) (safe_block.height - height) k fuel
                  (omega arith) enough) in
            (
              record {
                processed_to_height = r.from_height;
                log_effects = r.trace;
                tx_enqueued =
                    txs_between tx_tools listener.subscriptions blocks height
                      (suc (r.from_height - height));
              },
              r,
              ground (arith, behind, found, logs, ran, txs, looped),
              ran,
              refl,
              low,
              jobs,
            )
        | inr no_txs ↦ (
          record { processed_to_height = r.from_height; log_effects = r.trace; tx_enqueued = [] },
          r,
          ground (arith, behind, found, logs, ran, no_txs),
          ran,
          refl,
          low,
          jobs,
        )
      ]
