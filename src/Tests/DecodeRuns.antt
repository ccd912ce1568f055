-- ===== src/Tests/DecodeRuns.antt =====
-- Data that is decoded: arguments located, a log's job unpacked, a method invoked.
use bridge_core.Prelude.{
  ℕ, ◌≡◌, ◌⊎◌, ◌≤◌, refl, subst, arith, true, Option, none, some, List, [], ◌∷◌, ◌++◌, ◌==◌, length,
  ◌↔◌, ◌+◌, Bool, if◌then◌else◌, ◌&&◌, suc, zero, leb,
}
use bridge_core.Prelude.Outcome.{returns, panics}
use bridge_core.Types.{Abi, Log, as_transaction, new_empty_transaction}
use bridge_core.Controller.Logs.{LogTools}
use bridge_core.Controller.Batch.Jobs.{job_of}
use bridge_core.Controller.Origin.Payload.{Unpacks, job_of-unpack_log}
use bridge_core.Utils.Arguments.{Decoders, get_arguments, unpack_log}
use bridge_core.Utils.Arguments.Located.{IsWellSized, Located, get_arguments_lem}
use bridge_core.Utils.Invoke.{Reflected, invoke, num_in, invoke_method, convert_args, in_type}
use bridge_core.Utils.Invoke.Called.{IsCallable, AllConverted, invoke_lem, HasTypes}
use bridge_core.Tests.Batches.{watcher, gateway, built, built_filters, event_at}

-- A log without data, as its fields one after the other.
abbrev written : Log → List ℕ
written l = l.tx_hash ∷ l.address ∷ l.block_number ∷ l.topics

abbrev read : List ℕ → Option Log
read (hash ∷ address ∷ height ∷ topics) = some (record {
  topics = topics;
  address = address;
  tx_hash = hash;
  log_data = [];
  block_number = height;
})
read _ = none

abbrev writing_tools : LogTools ℕ
writing_tools = record {
  marshal = λ l. some (written l);
  topic_hex = λ t. "0x";
  address_hex = λ a. "0x9";
  get_listen_handle_job = λ name tx topic payload. some tx.hash;
}

abbrev plain_decoders : Decoders (List ℕ) (List ℕ)
plain_decoders = record {
  unpack = λ arguments payload. some payload;
  copy = λ arguments unpacked out. (unpacked, true);
  unpack_into_interface = λ abi event payload out. (payload, true);
  parse_topics = λ arguments topics out. (out ++ topics, true);
  is_indexed = λ a. a == 1;
  unmarshal_log = read;
}

deposit_job : job_of writing_tools 2020 built.event_ids (event_at 3 42) ≡ some 1003
unfolding as_transaction new_empty_transaction
deposit_job = refl

deposit_unpacked :
    unpack_log plain_decoders gateway (5 ∷ []) "Deposited" (written (event_at 3 42))
    ≡ returns (5 ∷ [], true)
unfolding unpack_log
deposit_unpacked = refl

deposit_read :
    (payload : List ℕ)
    → writing_tools.marshal (event_at 3 42) ≡ some payload
    → read payload ≡ some (event_at 3 42)
deposit_read payload coded =
    let same : written (event_at 3 42) ≡ payload = ground (arith, coded) in
    subst (λ p. read p ≡ some (event_at 3 42)) same refl

job_of-unpack_log_example :
    Unpacks writing_tools plain_decoders
      (λ s. 9)
      watcher.subscriptions
      2020
      built.event_ids
      (event_at 3 42)
      1003
job_of-unpack_log_example =
    job_of-unpack_log writing_tools plain_decoders (λ s. 9) watcher.subscriptions built 2020
      (event_at 3 42) 1003 built_filters deposit_read deposit_job

-- An ABI with a method and an event of the same name.
abbrev twice_named : Abi
twice_named = record {
  pointer = 2;
  methods = ("transfer", record { inputs = some (1 ∷ []); outputs = some [] }) ∷ [];
  events = ("transfer", record { id = 42; event_inputs = some (2 ∷ 3 ∷ []) }) ∷ [];
}

event_first : get_arguments twice_named "transfer" [] true ≡ some (2 ∷ 3 ∷ [])
unfolding get_arguments
event_first = refl

get_arguments_lem_example :
    (get_arguments twice_named "transfer" (0 ∷ []) true ≡ some (2 ∷ 3 ∷ [])) ↔ (
      IsWellSized twice_named "transfer" (0 ∷ [])
      × Located twice_named "transfer" true (2 ∷ 3 ∷ []))
get_arguments_lem_example = get_arguments_lem twice_named "transfer" (0 ∷ []) true (2 ∷ 3 ∷ [])

-- A variadic method of two parameters that adds its arguments. A value is a type with a number; one of
-- type 0 is converted to type 1, and a call with other types or too few arguments panics.
abbrev sum : List (ℕ × ℕ) → ℕ
sum [] = 0
sum ((t, n) ∷ ns) = n + sum ns

abbrev all_ones : List (ℕ × ℕ) → Bool
all_ones [] = true
all_ones ((t, n) ∷ ns) = (t == 1) && all_ones ns

abbrev adder : Reflected ℕ (ℕ × ℕ) ℕ
adder = record {
  in_types = 1 ∷ 2 ∷ [];
  is_variadic = true;
  elem_type = λ t. 1;
  type_of = λ v. some v.0;
  convertible_to = λ u t. t == 1;
  convert = λ v t. returns (t, v.1);
  call = λ ins. if all_ones ins && leb 2 (length ins) then returns (sum ins ∷ []) else panics;
}

asks_one : (i t : ℕ) → in_type adder i ≡ returns t → t ≡ 1
asks_one zero t e = ground (arith, e)
asks_one (suc i) t e = ground (arith, e)

HasTypes-all_ones : (i : ℕ) (ins : List (ℕ × ℕ)) → HasTypes adder i ins → all_ones ins ≡ true
HasTypes-all_ones i [] typed = refl
HasTypes-all_ones i ((u, n) ∷ ins) ((t, asks, has), rest) =
    let one = asks_one i t asks in
    let others = HasTypes-all_ones (suc i) ins rest in ground (arith, one, has, others)

adder-calls :
    (ins : List (ℕ × ℕ))
    → HasTypes adder 0 ins
    → num_in adder ≤ length ins
    → adder.call ins ≡ returns (sum ins ∷ [])
adder-calls ins typed enough =
    let ones = HasTypes-all_ones 0 ins typed in ground (arith, ones, enough)

adder-IsCallable : IsCallable adder
adder-IsCallable = record {
  variadic-some = λ e. omega arith;
  convert-returns = λ arg t u has can. ((t, arg.1), refl);
  type_of-convert = λ arg v t e. ground (arith, e);
  call-returns = λ ins typed enough fits. (sum ins, [], adder-calls ins typed enough);
}

abbrev three : List (ℕ × ℕ)
three = (0, 10) ∷ (0, 20) ∷ (0, 30) ∷ []

added : invoke (some adder) three ≡ returns (some 60)
unfolding invoke invoke_method convert_args
added = refl

invoke_lem_example :
    (invoke (some adder) three ≡ returns none)
    ⊎ ((ins : List (ℕ × ℕ)) × (r : ℕ) × (rs : List ℕ) × (invoke (some adder) three
          ≡ returns (some r))
        × (adder.call ins ≡ returns (r ∷ rs))
        × AllConverted adder 0 three ins
        × (num_in adder ≤ length three)
        × ((adder.is_variadic ≡ true) ⊎ (length three ≡ num_in adder)))
invoke_lem_example = invoke_lem adder adder-IsCallable three
