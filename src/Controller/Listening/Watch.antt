-- ===== src/Controller/Listening/Watch.antt =====
-- The endless loop of startListening, and its calls of processBehindBlock. What the world answers in
-- one round is a moment; the case of the `select` that is taken is part of it. The current block of
-- the listener is state: a round reads what the rounds before it wrote. The stats reporter only logs,
-- and its goroutine is left out.
use bridge_core.Prelude.{
  ℕ, String, Bool, Option, none, some, List, [], ◌∷◌, ltb, if◌then◌else◌, true, false,
}
use bridge_core.Prelude.Outcome.{Outcome, returns, panics}
use bridge_core.Types.{Block, Listener}
use bridge_core.Controller.Logs.{LogTools}
use bridge_core.Controller.Batch.Loop.{Node}
use bridge_core.Controller.Behind.Txs.{TxTools}
use bridge_core.Controller.Behind.Blocks.{sub64, Behind, worked, process_behind_block}
use bridge_core.Controller.Batch.Current.{Keeper, after_effects}

pub record Moment : Type 0 where
  pub context_done : Bool  -- `<-listener.Context().Done()` is taken
  pub pool_closed : Bool
  pub latest_height : Option ℕ  -- GetLatestBlockHeight; `none` is an error
  pub current_block : Option Block  -- GetCurrentBlock; `none` is nil
  pub node : Node
  pub get_safe_block : ℕ → Option Block
  pub tx_block : ℕ → ℕ → Option Block
  pub tx_fuel : ℕ

-- What a round does.
pub data Round (J : Type 0) : Type 0 where
  saves_block : Round J  -- SaveCurrentBlockToDB, and the return
  waits_for_pool : Round J  -- the timers stop, Pool.Wait, and the return
  latest_failed : Round J
  in_safe_range : Round J
  went_behind : Behind J → Round J

abbrev pub is_last : {J : Type 0} → Round J → Bool
is_last saves_block = true
is_last waits_for_pool = true
is_last _ = false

module _ {J : Type 0} (tools : LogTools J) (tx_tools : TxTools J) (hex_to_address : String → ℕ)
    (listener : Listener) (batch_size safe_block_range : ℕ) where
  -- processBehindBlock with the answers of a moment.
  abbrev pub behind_at : Moment → ℕ → ℕ → Option (Outcome (Behind J))
  behind_at m height latest =
      process_behind_block tools tx_tools m.node hex_to_address listener batch_size safe_block_range
        m.get_safe_block m.tx_block m.tx_fuel height latest

  abbrev went : Option (Outcome (Behind J)) → Option (Outcome (Round J))
  went none = none
  went (some panics) = some panics
  went (some (returns b)) = some (returns (went_behind b))

  abbrev from_block : Moment → ℕ → Block → Option (Outcome (Round J))
  from_block m latest block =
      if ltb (sub64 latest safe_block_range) block.height
      then some (returns in_safe_range)
      else went (behind_at m block.height latest)

  -- A nil current block is a nil pointer, at GetHeight.
  abbrev from_latest : Moment → ℕ → Option Block → Option (Outcome (Round J))
  from_latest m latest none = some panics
  from_latest m latest (some block) = from_block m latest block

  unfoldable pub watch_round : Moment → Option (Outcome (Round J))
  watch_round m =
      if m.context_done
      then some (returns saves_block)
      else (if m.pool_closed then some (returns waits_for_pool) else elim m.latest_height [
        | none ↦ some (returns latest_failed)
        | some latest ↦ from_latest m latest m.current_block
      ])

module _ {S : Type 0} {J : Type 0} (keeper : Keeper S) (tools : LogTools J) (tx_tools : TxTools J)
    (hex_to_address : String → ℕ) (listener : Listener) (batch_size safe_block_range : ℕ) where
  -- GetCurrentBlock answers from the listener's state.
  abbrev pub with_current : S → Moment → Moment
  with_current s m = record m { current_block = keeper.get_current_block s }

  -- The listener's state after a round.
  abbrev pub after_round : Round J → S → S
  after_round (went_behind (worked w)) s = after_effects keeper w.log_effects s
  after_round _ s = s

  abbrev pub onward :
      (S → Option (List (Round J) × Bool × S))
      → S
      → Option (Outcome (Round J))
      → Option (List (Round J) × Bool × S)
  onward rest s none = none
  onward rest s (some panics) = some ([], false, s)
  onward rest s (some (returns r)) =
      if is_last r then some (r ∷ [], false, s) else elim (rest (after_round r s)) [
        | none ↦ none
        | some (rs, alive, s') ↦ some (r ∷ rs, alive, s')
      ]

  -- The rounds over some moments from a state of the listener, whether the goroutine is still there,
  -- and the listener's state: a panic is recovered by the deferred function, and ends the goroutine.
  -- `none` means that a round ran out of fuel.
  unfoldable pub watch : List Moment → S → Option (List (Round J) × Bool × S)
  unfolding watch_round after_effects
  watch [] s = some ([], true, s)
  watch (m ∷ ms) s = onward (watch ms) s (
      watch_round tools tx_tools hex_to_address listener batch_size safe_block_range
        (with_current s m))
