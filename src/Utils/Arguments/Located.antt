-- ===== src/Utils/Arguments/Located.antt =====
-- Which arguments GetArguments finds.
use bridge_core.Prelude.{
  ℕ, String, Bool, none, some, List, ◌≡◌, ◌↔◌, ◌⊎◌, ◌%◌, length, if◌then◌else◌, inl, inr,
  Bool-cases, Option-cases, arith, ◌==◌, ==_iff,
}
use bridge_core.Prelude.Map.{lookup, string_eq}
use bridge_core.Types.{Abi, AbiEvent, Method}
use bridge_core.Utils.Arguments.{get_arguments}

-- No method has the name, or the data is made of words of 32 bytes.
abbrev pub IsWellSized : Abi → String → List ℕ → Type 0
IsWellSized abi name payload = (lookup name abi.methods ≡ none) ⊎ (length payload % 32 ≡ 0)

-- The arguments come from the event of the name if there is one, and else from the inputs or the
-- outputs of the method.
pub data Located (abi : Abi) (name : String) (is_input : Bool) (arguments : List ℕ) : Type 0 where
  of_event :
      (event : AbiEvent)
      → lookup name abi.events ≡ some event
      → event.event_inputs ≡ some arguments
      → Located abi name is_input arguments
  of_method :
      (method : Method)
      → lookup name abi.events ≡ none
      → lookup name abi.methods ≡ some method
      → (if is_input then method.inputs else method.outputs) ≡ some arguments
      → Located abi name is_input arguments

located :
    (abi : Abi) (name : String) (payload : List ℕ) (is_input : Bool) (arguments : List ℕ)
    → get_arguments abi name payload is_input ≡ some arguments
    → IsWellSized abi name payload × Located abi name is_input arguments
unfolding get_arguments
located abi name payload is_input arguments found = elim (Option-cases (lookup name abi.methods)) [
  | inl no_method ↦ elim (Option-cases (lookup name abi.events)) [
    | inl no_event ↦ ground (arith, no_method, no_event, found)
    | inr (e, has) ↦ (inl no_method, of_event e has (ground (arith, no_method, has, found)))
  ]
  | inr (m, has_method) ↦ elim (Bool-cases (length payload % 32 == 0)) [
    | inr ill_sized ↦ ground (arith, has_method, ill_sized, found)
    | inl sized ↦
        let words : length payload % 32 ≡ 0 = (==_iff (length payload % 32) 0).0 sized in
        elim (Option-cases (lookup name abi.events)) [
          | inl no_event ↦ (
            inr words,
            of_method m no_event has_method (ground (arith, has_method, no_event, sized, found)),
          )
          | inr (e, has) ↦
              (inr words, of_event e has (ground (arith, has_method, sized, has, found)))
        ]
  ]
]

finds :
    (abi : Abi) (name : String) (payload : List ℕ) (is_input : Bool) (arguments : List ℕ)
    → IsWellSized abi name payload
    → Located abi name is_input arguments
    → get_arguments abi name payload is_input ≡ some arguments
unfolding get_arguments
finds abi name payload is_input arguments (inl no_method) (of_event e has inputs) =
    ground (arith, no_method, has, inputs)
finds abi name payload is_input arguments (inl no_method) (of_method m no_event has side) =
    ground (arith, no_method, has)
finds abi name payload is_input arguments (inr sized) (of_event e has inputs) =
    elim (Option-cases (lookup name abi.methods)) [
      | inl no_method ↦ ground (arith, no_method, has, inputs)
      | inr (m, has_method) ↦ ground (arith, has_method, has, inputs, sized)
    ]
finds abi name payload is_input arguments (inr sized) (of_method m no_event has side) =
    ground (arith, has, no_event, side, sized)

-- GetArguments succeeds exactly when the data is well-sized for a method of the name and arguments
-- are located; it returns these.
pub get_arguments_lem :
    (abi : Abi) (name : String) (payload : List ℕ) (is_input : Bool) (arguments : List ℕ)
    → (get_arguments abi name payload is_input ≡ some arguments)
      ↔ (IsWellSized abi name payload × Located abi name is_input arguments)
get_arguments_lem abi name payload is_input arguments = (
  located abi name payload is_input arguments,
  λ (sized, there). finds abi name payload is_input arguments sized there,
)
