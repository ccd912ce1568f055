-- ===== src/Controller/Origin.antt =====
-- Where the entries of eventIds in processBatchLogs come from.
pub mod Payload
use bridge_core.Prelude.{
  ap, subst, true, ℕ, zero, suc, ◌≡◌, ◌∙◌, refl, sym, String, Option, none, some, List, [], ◌∷◌,
  ◌⊎◌, inl, inr, arith, get_elem?, Bool-cases,
}
use bridge_core.Prelude.Map.{lookup, insert, string_eq, nat_eq, lookup-insert_other, lookup-insert}
use bridge_core.Prelude.Outcome.{Outcome, returns, ◌>>=◌, deref, >>=-eq-returns, deref-eq-returns}
use bridge_core.Types.{Abi, Handler, Subscribe, event_id}
use bridge_core.Controller.Filters.{
  EventMapKey, key_beq, key_beq_iff, key_eq, Filters, no_filters, add_contract, methods_at,
  add_subscription, add_subscriptions,
}

module _ (hex_to_address : String → ℕ) where
  -- The key is made of the event and the contract of the subscription.
  pub record IsKeyOf (s : Subscribe) (k : EventMapKey) : Type 0 where
    pub handler : Handler
    pub abi : Abi
    pub has_handler : s.handler ≡ some handler
    pub has_abi : handler.abi ≡ some abi
    pub its_topic : event_id handler.name abi ≡ k.topic
    pub its_contract : hex_to_address s.to ≡ k.contract

  -- A subscription of the name, in the order of iteration, whose key this is.
  pub record Origin (ss : List (String × Subscribe)) (k : EventMapKey) (name : String)
      : Type 0 where
    pub index : ℕ
    pub subscription : Subscribe
    pub is_there : get_elem? ss index ≡ some (name, subscription)
    pub is_key : IsKeyOf subscription k

  later :
      (s : String × Subscribe) (ss : List (String × Subscribe)) (k : EventMapKey) (name : String)
      → Origin ss k name
      → Origin (s ∷ ss) k name
  later s ss k name o = record {
    index = suc o.index;
    subscription = o.subscription;
    is_there = o.is_there;
    is_key = o.is_key;
  }

  add_contract-event_ids : (a : ℕ) (f : Filters) → (add_contract a f).event_ids ≡ f.event_ids
  add_contract-event_ids a f = ground arith

  event_ids-returned :
      (a : ℕ) (f g : Filters) → returns (add_contract a f) ≡ returns g → g.event_ids ≡ f.event_ids
  event_ids-returned a f g done = ground (arith, done, add_contract-event_ids a f)

  inserted_one :
      (j k : EventMapKey) (n name : String) (m : List (EventMapKey × String))
      → key_beq j k ≡ true
      → lookup k (insert j n m) ≡ some name
      → n ≡ name
  inserted_one j k n name m same found = ground (arith, lookup-insert j k n m, same, found)

  add_subscription-event_ids :
      (name : String) (s : Subscribe) (f g : Filters)
      → add_subscription hex_to_address name s f ≡ returns g
      → (k : EventMapKey) × IsKeyOf s k × (g.event_ids ≡ insert k name f.event_ids)
  unfolding add_subscription
  add_subscription-event_ids name s f g added =
      let (h, found, then) = >>=-eq-returns (deref s.handler) _ added in
      let (abi, abi_found, last) = >>=-eq-returns (deref h.abi) _ then in
      (
        record { topic = event_id h.name abi; contract = hex_to_address s.to },
        record {
          handler = h;
          abi = abi;
          has_handler = deref-eq-returns s.handler found;
          has_abi = deref-eq-returns h.abi abi_found;
          its_topic = refl;
          its_contract = refl;
        },
        event_ids-returned (hex_to_address s.to) _ g last,
      )

  add_subscriptions-entries :
      (ss : List (String × Subscribe)) (f g : Filters)
      → add_subscriptions hex_to_address ss f ≡ returns g
      → (k : EventMapKey) (name : String) → lookup k g.event_ids ≡ some name
      → (lookup k f.event_ids ≡ some name) ⊎ Origin ss k name
  unfolding add_subscriptions
  add_subscriptions-entries [] f g added k name found =
      let unchanged : g ≡ f = ground (arith, added) in
      inl (subst (λ (x : Filters). lookup k x.event_ids ≡ some name) unchanged found)
  add_subscriptions-entries ((n, s) ∷ rest) f g added k name found =
      let (f', first, then) = >>=-eq-returns (add_subscription hex_to_address n s f) _ added in
      let (j, is_key, ids) = add_subscription-event_ids n s f f' first in
      let entry : lookup k f'.event_ids ≡ some name
          → lookup k (insert j n f.event_ids) ≡ some name =
        λ b. subst (λ x. lookup k x ≡ some name) ids b in
      elim (add_subscriptions-entries rest f' g then k name found) [
        | inr origin ↦ inr (later (n, s) rest k name origin)
        | inl before ↦ elim (Bool-cases (key_beq j k)) [
          | inr other ↦ inl (sym (lookup-insert_other j k n f.event_ids other) ∙ entry before)
          | inl same ↦ inr (record {
            index = 0;
            subscription = s;
            is_there =
                ap (λ x. some (x, s)) (inserted_one j k n name f.event_ids same (entry before));
            is_key = subst (IsKeyOf s) ((key_beq_iff j k).0 same) is_key;
          })
        ]
      ]

  pub add_subscriptions-Origin :
      (ss : List (String × Subscribe)) (f : Filters)
      → add_subscriptions hex_to_address ss no_filters ≡ returns f
      → (k : EventMapKey) (name : String) → lookup k f.event_ids ≡ some name
      → Origin ss k name
  add_subscriptions-Origin ss f added k name found =
      elim (add_subscriptions-entries ss no_filters f added k name found) [
        | inl before ↦ cc
        | inr origin ↦ origin
      ]
