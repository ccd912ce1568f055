-- ===== src/Controller/Behind/Blocks.antt =====
-- processBehindBlock. GetBlock is asked in three places, each with answers of its own.
use bridge_core.Prelude.{
  ℕ, ◌+◌, ◌-◌, ◌^◌, String, Bool, false, ◌||◌, Option, none, some, List, [], ◌∷◌, ltb, ◌==◌,
  if◌then◌else◌,
}
use bridge_core.Prelude.Outcome.{Outcome, returns, panics}
use bridge_core.Types.{Subscribe, Block, Listener, tx_event, log_event}
use bridge_core.Controller.Logs.{LogTools}
use bridge_core.Controller.Batch.Loop.{Effect, Node, u64, process_batch_logs}
use bridge_core.Controller.Behind.Txs.{TxTools, tx_loop}

-- c.hasSubscriptionType[name][type], as NewWithContext fills it from the subscriptions.
unfoldable pub has_subscription_type : ℕ → List (String × Subscribe) → Bool
has_subscription_type type [] = false
has_subscription_type type ((name, s) ∷ rest) = s.type_of == type || has_subscription_type type rest

-- The difference of two uint64.
abbrev pub sub64 : ℕ → ℕ → ℕ
sub64 a b = u64 (a + 2 ^ 64 - b)

pub record Work (J : Type 0) : Type 0 where
  pub processed_to_height : ℕ
  pub log_effects : List (Effect J)
  pub tx_enqueued : List J

pub data Behind (J : Type 0) : Type 0 where
  no_safe_block : Behind J  -- the error of GetBlock for the safe block
  worked : Work J → Behind J

abbrev pub no_work : {J : Type 0} → Work J
no_work = record { processed_to_height = 0; log_effects = []; tx_enqueued = [] }

module _ {J : Type 0} (tools : LogTools J) (tx_tools : TxTools J) (node : Node)
    (hex_to_address : String → ℕ) (listener : Listener) (batch_size safe_block_range : ℕ)
    (get_safe_block : ℕ → Option Block) (tx_block : ℕ → ℕ → Option Block) where
  -- The second half: the transactions, if a subscription asks for them.
  unfoldable pub txs_part : ℕ → ℕ → ℕ → List (Effect J) → Option (Outcome (Behind J))
  txs_part fuel height processed_to effects =
      if has_subscription_type tx_event listener.subscriptions
      then elim (tx_loop tx_tools tx_block listener.subscriptions fuel 0 height processed_to) [
        | none ↦ none
        | some js ↦ some (
            returns (
              worked (record {
                processed_to_height = processed_to;
                log_effects = effects;
                tx_enqueued = js;
              })))
      ]
      else some (
          returns (
            worked (record {
              processed_to_height = processed_to;
              log_effects = effects;
              tx_enqueued = [];
            })))

  unfoldable pub logs_part : ℕ → ℕ → Block → Option (Outcome (Behind J))
  logs_part fuel height safe_block =
      if has_subscription_type log_event listener.subscriptions
      then elim (process_batch_logs tools node hex_to_address listener batch_size height
          safe_block.height) [
            | none ↦ none
            | some panics ↦ some panics
            | some (returns r) ↦ txs_part fuel height r.from_height r.trace
          ]
      else txs_part fuel height 0 []

  -- `none` means that the fuel of the loop over the transactions' blocks ran out.
  unfoldable pub process_behind_block : ℕ → ℕ → ℕ → Option (Outcome (Behind J))
  process_behind_block fuel height latest =
      let target = sub64 latest safe_block_range in
      if ltb height target
      then elim (get_safe_block target) [
        | none ↦ some (returns no_safe_block)
        | some safe_block ↦ logs_part fuel height safe_block
      ]
      else some (returns (worked no_work))
