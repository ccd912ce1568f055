-- ===== src/Types.antt =====
-- types.go: the data that listeners, jobs and the controller share. Hashes and addresses are
-- numbers, byte strings are lists of numbers; the fields of go-ethereum's ABI and log are those
-- that the source reads.
use bridge_core.Prelude.Map.{lookup, string_eq}
use bridge_core.Prelude.{ℕ, ◌+◌, ◌≡◌, String, Bool, Option, none, some, List}

abbrev pub listen_handler : ℕ
listen_handler = 0

abbrev pub callback_handler : ℕ
callback_handler = 1

abbrev pub tx_event : ℕ
tx_event = 0

abbrev pub log_event : ℕ
log_event = 1

-- abi.ABI: `pointer` tells one loaded ABI from another; a method has inputs and outputs, an event
-- an id and inputs, each a list of arguments that the source only passes on.
pub record Method : Type 0 where
  pub inputs : Option (List ℕ)
  pub outputs : Option (List ℕ)

pub record AbiEvent : Type 0 where
  pub id : ℕ
  pub event_inputs : Option (List ℕ)

pub record Abi : Type 0 where
  pub pointer : ℕ
  pub methods : List (String × Method)
  pub events : List (String × AbiEvent)

-- `abi.Events[name].ID`, which is the zero hash for a missing event.
abbrev pub event_id : String → Abi → ℕ
event_id name abi = elim (lookup name abi.events) [ none ↦ 0 | some e ↦ e.id ]

pub record Handler : Type 0 where
  pub contract : String
  pub name : String
  pub contract_address : String
  pub listener : String
  pub abi : Option Abi
  pub handle_method : String

pub record Subscribe : Type 0 where
  pub from : String
  pub to : String
  pub type_of : ℕ
  pub handler : Option Handler
  pub callbacks : List (String × String)

-- The interface Transaction, as the values of its getters.
pub record Transaction : Type 0 where
  pub hash : ℕ
  pub from_address : String
  pub to_address : String
  pub payload : List ℕ
  pub value : Option ℕ

-- types.Log of go-ethereum.
pub record Log : Type 0 where
  pub topics : List ℕ
  pub address : ℕ
  pub tx_hash : ℕ
  pub log_data : List ℕ
  pub block_number : ℕ

pub record Block : Type 0 where
  pub height : ℕ
  pub transactions : List Transaction

-- What the core reads of a listener that does not change while it works.
pub record Listener : Type 0 where
  pub listener_name : String
  pub subscriptions : List (String × Subscribe)
  pub is_disabled : Bool

-- LsConfig: what the core reads of a listener's configuration. A negative interval is treated as 0
-- is; the batch size is not negative.
pub record LsConfig : Type 0 where
  pub config_name : String
  pub load_interval : ℕ
  pub config_subscriptions : List (String × Subscribe)
  pub process_within_blocks : ℕ
  pub get_logs_batch_size : ℕ

pub record EmptyTransaction : Type 0 where
  pub chain_id : ℕ
  pub tx : ℕ
  pub from_pointer : Option ℕ
  pub to_pointer : Option ℕ
  pub bytes : List ℕ

unfoldable pub new_empty_transaction : ℕ → ℕ → List ℕ → Option ℕ → Option ℕ → EmptyTransaction
new_empty_transaction chain_id tx payload from to = record {
  chain_id = chain_id;
  tx = tx;
  from_pointer = from;
  to_pointer = to;
  bytes = payload;
}

module _ (address_hex : ℕ → String) where
  abbrev get_address : Option ℕ → String
  get_address none = ""
  get_address (some a) = address_hex a

  -- An EmptyTransaction behind the interface: the getters of types.go.
  unfoldable pub as_transaction : EmptyTransaction → Transaction
  as_transaction t = record {
    hash = t.tx;
    from_address = get_address t.from_pointer;
    to_address = get_address t.to_pointer;
    payload = t.bytes;
    value = none;
  }

-- The interface JobHandler, as far as the pool and the workers use it.
pub record JobHandler (J : Type 0) : Type 0 where
  pub get_type : J → ℕ
  pub get_retry_count : J → ℕ
  pub get_max_try : J → ℕ
  pub get_back_off : J → ℕ
  pub get_next_try : J → ℕ
  pub increase_retry_count : J → J
  pub update_next_try : ℕ → J → J

-- What an implementation of the setters promises to the pool.
pub record IsJobHandler {J : Type 0} (h : JobHandler J) : Type 0 where
  pub retry_count-increase :
      (j : J) → h.get_retry_count (h.increase_retry_count j) ≡ h.get_retry_count j + 1
  pub max_try-increase : (j : J) → h.get_max_try (h.increase_retry_count j) ≡ h.get_max_try j
  pub back_off-increase : (j : J) → h.get_back_off (h.increase_retry_count j) ≡ h.get_back_off j
  pub next_try-update : (t : ℕ) (j : J) → h.get_next_try (h.update_next_try t j) ≡ t
  pub retry_count-update :
      (t : ℕ) (j : J) → h.get_retry_count (h.update_next_try t j) ≡ h.get_retry_count j
  pub max_try-update : (t : ℕ) (j : J) → h.get_max_try (h.update_next_try t j) ≡ h.get_max_try j
  pub back_off-update : (t : ℕ) (j : J) → h.get_back_off (h.update_next_try t j) ≡ h.get_back_off j

-- What the Process of a job returns: the data, of which `none` is nil, an error, or nothing, since it
-- panics.
pub data Processing : Type 0 where
  value : Option (List ℕ) → Processing
  process_failed process_panics : Processing
