-- ===== src/Utils/Arguments.antt =====
-- GetArguments, UnpackToInterface and UnpackLog of utils/main.go. The libraries' decoders are
-- parameters; a variable that they write through a pointer is passed and returned, with whether the
-- error is nil.
pub mod Located
use bridge_core.Prelude.{
  ℕ, String, Bool, true, false, Option, none, some, List, [], ◌∷◌, ◌==◌, ◌%◌, length, if◌then◌else◌,
}
use bridge_core.Prelude.Map.{lookup, string_eq}
use bridge_core.Prelude.Outcome.{Outcome, returns, panics}
use bridge_core.Types.{Abi, AbiEvent, Method, Log, event_id}

-- Unpack and Copy of abi.Arguments, UnpackIntoInterface of an ABI, abi.ParseTopics, the flag
-- Indexed of an argument, and json.Unmarshal into a log.
pub record Decoders (V O : Type 0) : Type 0 where
  pub unpack : List ℕ → List ℕ → Option V
  pub copy : List ℕ → V → O → O × Bool
  pub unpack_into_interface : Abi → String → List ℕ → O → O × Bool
  pub parse_topics : List ℕ → List ℕ → O → O × Bool
  pub is_indexed : ℕ → Bool
  pub unmarshal_log : List ℕ → Option Log

-- The arguments of the method with the name, if there is one; `none` is the error.
abbrev pub method_arguments : Option Method → List ℕ → Bool → Option (Option (List ℕ))
method_arguments none payload is_input = some none
method_arguments (some method) payload is_input =
    if length payload % 32 == 0
    then some (if is_input then method.inputs else method.outputs)
    else none

abbrev pub event_arguments : Option AbiEvent → Option (List ℕ) → Option (List ℕ)
event_arguments none arguments = arguments
event_arguments (some event) arguments = event.event_inputs

unfoldable pub get_arguments : Abi → String → List ℕ → Bool → Option (List ℕ)
get_arguments abi name payload is_input =
    elim (method_arguments (lookup name abi.methods) payload is_input) [
      | none ↦ none
      | some arguments ↦ event_arguments (lookup name abi.events) arguments
    ]

module _ {V O : Type 0} (decoders : Decoders V O) where
  open decoders use {unpack, copy, unpack_into_interface, parse_topics, is_indexed, unmarshal_log}

  abbrev pub unpack_with : List ℕ → List ℕ → O → O × Bool
  unpack_with arguments payload v = elim (unpack arguments payload) [
    | none ↦ (v, false)
    | some unpacked ↦ copy arguments unpacked v
  ]

  unfoldable pub unpack_to_interface : Abi → String → List ℕ → Bool → O → O × Bool
  unfolding get_arguments
  unpack_to_interface abi name payload is_input v = elim (get_arguments abi name payload is_input) [
    | none ↦ (v, false)
    | some arguments ↦ unpack_with arguments payload v
  ]

  abbrev pub indexed : List ℕ → List ℕ
  indexed [] = []
  indexed (a ∷ rest) = let others = indexed rest in if is_indexed a then a ∷ others else others

  -- `smcAbi.Events[event].Inputs`
  abbrev pub inputs_of : String → Abi → List ℕ
  inputs_of event abi = elim (lookup event abi.events) [
    | none ↦ []
    | some e ↦ elim (e.event_inputs) [ none ↦ [] | some inputs ↦ inputs ]
  ]

  abbrev pub unpack_data : Abi → O → String → List ℕ → O × Bool
  unpack_data abi out event [] = (out, true)
  unpack_data abi out event (b ∷ bytes) = unpack_into_interface abi event (b ∷ bytes) out

  abbrev pub unpack_topics : Abi → String → List ℕ → O × Bool → O × Bool
  unpack_topics abi event topics (out, false) = (out, false)
  unpack_topics abi event topics (out, true) =
      parse_topics (indexed (inputs_of event abi)) topics out

  -- `log.Topics[0]` panics on a log without topics.
  abbrev pub unpack_from : Abi → O → String → Log → List ℕ → Outcome (O × Bool)
  unpack_from abi out event l [] = panics
  unpack_from abi out event l (topic ∷ topics) =
      if topic == event_id event abi
      then returns (unpack_topics abi event topics (unpack_data abi out event l.log_data))
      else returns (out, false)

  unfoldable pub unpack_log : Abi → O → String → List ℕ → Outcome (O × Bool)
  unpack_log abi out event payload = elim (unmarshal_log payload) [
    | none ↦ returns (out, false)
    | some l ↦ unpack_from abi out event l l.topics
  ]
