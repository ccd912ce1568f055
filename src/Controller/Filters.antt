-- ===== src/Controller/Filters.antt =====
-- The first loop of processBatchLogs: what is asked of the node for a listener's subscriptions, and
-- which subscription an event belongs to. The subscriptions come in the order in which the map is
-- iterated; common.HexToAddress is a parameter.
use bridge_core.Prelude.{
  ℕ, ◌≡◌, ◌↔◌, String, Bool, true, ◌&&◌, none, some, List, [], ◌∷◌, ◌++◌, ◌==◌, arith,
}
use bridge_core.Prelude.Map.{Eq, lookup, insert, string_eq, nat_eq}
use bridge_core.Prelude.Outcome.{Outcome, returns, ◌>>=◌, deref}
use bridge_core.Types.{Subscribe, event_id}

-- eventMapKey
pub record EventMapKey : Type 0 where
  pub topic : ℕ
  pub contract : ℕ

abbrev pub key_beq : EventMapKey → EventMapKey → Bool
key_beq a b = a.topic == b.topic && a.contract == b.contract

pub key_beq_iff : (a b : EventMapKey) → (key_beq a b ≡ true) ↔ (a ≡ b)
key_beq_iff a b = ground arith

instance abbrev pub key_eq : Eq EventMapKey
key_eq = record { beq = key_beq; beq_iff = key_beq_iff }

pub record Filters : Type 0 where
  pub contract_addresses : List ℕ
  pub added_contract : List (ℕ × Unit {0})
  pub filtered_methods : List (ℕ × List (String × Unit {0}))
  pub event_ids : List (EventMapKey × String)

abbrev pub no_filters : Filters
no_filters = record {
  contract_addresses = [];
  added_contract = [];
  filtered_methods = [];
  event_ids = [];
}

-- The value of a map at a key, with the zero value for a missing one.
abbrev pub methods_at : ℕ → List (ℕ × List (String × Unit {0})) → List (String × Unit {0})
methods_at abi m = elim (lookup abi m) [ none ↦ [] | some names ↦ names ]

abbrev pub add_contract : ℕ → Filters → Filters
add_contract address f = elim (lookup address f.added_contract) [
  | some _ ↦ f
  | none ↦ record f {
    contract_addresses = f.contract_addresses ++ address ∷ [];
    added_contract = insert address tt f.added_contract;
  }
]

module _ (hex_to_address : String → ℕ) where
  unfoldable pub add_subscription : String → Subscribe → Filters → Outcome Filters
  add_subscription subscription_name subscription f = do
    handler ← deref subscription.handler
    abi ← deref handler.abi
    let address = hex_to_address subscription.to
    returns (
        add_contract address (record f {
          filtered_methods =
              insert abi.pointer
                (insert handler.name tt (methods_at abi.pointer f.filtered_methods))
                f.filtered_methods;
          event_ids =
              insert (record { topic = event_id handler.name abi; contract = address })
                subscription_name f.event_ids;
        }))

  unfoldable pub add_subscriptions : List (String × Subscribe) → Filters → Outcome Filters
  unfolding add_subscription
  add_subscriptions [] f = returns f
  add_subscriptions ((name, s) ∷ rest) f = do
    f' ← add_subscription name s f
    add_subscriptions rest f'
