-- ===== src/Controller/Listening/Start.antt =====
-- startListening up to its endless loop: the attempts to catch up. The answers of the world at an
-- attempt are a moment; the attempts are numbered, since a recursive call asks again.
use bridge_core.Pool.Setup.{default_max_retry}
use bridge_core.Controller.Listening.Watch.{Moment, behind_at}
use bridge_core.Controller.Behind.Txs.{TxTools}
use bridge_core.Prelude.Outcome.{Outcome, returns, panics}
use bridge_core.Types.{Listener, Block}
use bridge_core.Controller.Logs.{LogTools}
use bridge_core.Controller.Behind.Blocks.{Work, worked, no_safe_block, Behind, sub64}
use bridge_core.Prelude.{
  ℕ, zero, suc, ◌+◌, Option, none, some, List, [], ◌∷◌, ltb, leb, if◌then◌else◌, String, ◌&&◌,
}

-- listener.SetInitHeight, when the height is out of the allowed range of blocks
unfoldable pub reset_init : ℕ → ℕ → ℕ → ℕ
reset_init process_within latest init =
    if ltb 0 process_within && ltb process_within (sub64 latest init)
    then sub64 latest process_within
    else init

pub data Ending (J : Type 0) : Type 0 where
  closes_listener : Ending J
  starts_watching : Option (Work J) → Ending J  -- the endless loop begins
  dies : Ending J  -- a panic, which the deferred function recovers

pub record Started (J : Type 0) : Type 0 where
  pub slept : List ℕ  -- the seconds between the attempts
  pub init_height : ℕ
  pub ending : Ending J

module _ {J : Type 0} (tools : LogTools J) (tx_tools : TxTools J) (hex_to_address : String → ℕ)
    (listener : Listener) (batch_size safe_block_range process_within : ℕ) (at : ℕ → Moment) where
  abbrev pub started : ℕ → Ending J → Started J
  started init ending = record { slept = []; init_height = init; ending = ending }

  abbrev pub after_pause : ℕ → Option (Started J) → Option (Started J)
  after_pause seconds none = none
  after_pause seconds (some s) = some (record s { slept = seconds ∷ s.slept })

  -- What follows a call of processBehindBlock.
  abbrev pub caught_up :
      (ℕ → Option (Started J)) → ℕ → Option (Outcome (Behind J)) → Option (Started J)
  caught_up again init none = none
  caught_up again init (some panics) = some (started init dies)
  caught_up again init (some (returns no_safe_block)) = again init
  caught_up again init (some (returns (worked w))) = some (started init (starts_watching (some w)))

  abbrev pub from_current :
      (ℕ → Option (Started J)) → ℕ → ℕ → Moment → Option Block → Option (Started J)
  from_current again init latest m none = some (started init (starts_watching none))
  from_current again init latest m (some block) = caught_up again init (
      behind_at tools tx_tools hex_to_address listener batch_size safe_block_range m block.height
        latest)

  abbrev pub attempt : (ℕ → Option (Started J)) → ℕ → Moment → Option ℕ → Option (Started J)
  attempt again init m none = again init
  attempt again init m (some latest) =
      from_current again (reset_init process_within latest init) latest m m.current_block

  -- On fuel; `none` if it or the fuel of the loop over transactions runs out.
  unfoldable pub start_listening : ℕ → ℕ → ℕ → ℕ → Option (Started J)
  start_listening zero calls try_count init = none
  start_listening (suc fuel) calls try_count init =
      let try =
        attempt
          (λ init'.
            after_pause (try_count + 1) (start_listening fuel (calls + 1) (try_count + 1) init'))
          init (at calls) (at calls).latest_height in
      if leb default_max_retry try_count then some (started init closes_listener) else try
