-- ===== src/Controller/Asked/Whole.antt =====
-- The whole first loop of processBatchLogs, and the question that FilterLogs asks after it.
use bridge_core.Prelude.Outcome.{deref-eq-returns, returns, >>=-eq-returns, deref}
use bridge_core.Utils.Filter.{event_topics}
use bridge_core.Prelude.Map.{lookup, nat_eq, string_eq}
use bridge_core.Controller.Asked.{
  mem, FilteredMethods, event_topics-mem, arith, [], subst, event_topics, List,
}
use bridge_core.Controller.Filters.{
  Filters, EventMapKey, key_eq, no_filters, add_subscription, add_subscriptions,
}
use bridge_core.Types.{Abi, Subscribe, Handler}
use bridge_core.Prelude.{
  ℕ, inl, String, some, true, inr, ◌≡◌, ◌⊎◌, arith, ◌∷◌, [], subst, List, All,
}
use bridge_core.Controller.Asked.Subscribed.{AllAsked, AskedTopic, add_subscription-AllAsked}

module _ (abi_at : ℕ → Abi) where
  -- What the subscription's handler knows as its ABI is what the pointer points to.
  abbrev pub IsLoaded : String × Subscribe → Type 0
  IsLoaded (name, s) =
      (h : Handler) (abi : Abi) → s.handler ≡ some h → h.abi ≡ some abi → abi_at abi.pointer ≡ abi

  no_filters-AllAsked : AllAsked abi_at no_filters
  no_filters-AllAsked = record {
    topics_asked = λ k n found. cc;
    contracts_asked = λ k n found. cc;
    added_asked = λ a there. cc;
  }

  topic_or_zero :
      (m : FilteredMethods) (t : ℕ)
      → AskedTopic abi_at m t
      → (t ≡ 0) ⊎ (mem t (event_topics abi_at m) ≡ true)
  topic_or_zero m t (inl none_has) = inl none_has
  topic_or_zero m t (inr asked) = inr (event_topics-mem abi_at m t asked)

  module _ (hex_to_address : String → ℕ) where
    add_one-AllAsked :
        (name : String) (s : Subscribe) (f g : Filters)
        → IsLoaded (name, s)
        → AllAsked abi_at f
        → add_subscription hex_to_address name s f ≡ returns g
        → AllAsked abi_at g
    unfolding add_subscription
    add_one-AllAsked name s f g loaded before added =
        let (h, found, then) = >>=-eq-returns (deref s.handler) _ added in
        let (abi, abi_found, last) = >>=-eq-returns (deref h.abi) _ then in
        let handler = deref-eq-returns s.handler found in
        let its_abi = deref-eq-returns h.abi abi_found in
        subst (AllAsked abi_at) (ground (arith, last)) (
          add_subscription-AllAsked abi_at abi h.name (hex_to_address s.to) name f
            (loaded h abi handler its_abi) before)

    add_subscriptions-AllAsked :
        (ss : List (String × Subscribe)) (f g : Filters)
        → All IsLoaded ss
        → AllAsked abi_at f
        → add_subscriptions hex_to_address ss f ≡ returns g
        → AllAsked abi_at g
    unfolding add_subscriptions
    add_subscriptions-AllAsked [] f g loaded before added =
        subst (AllAsked abi_at) (ground (arith, added)) before
    add_subscriptions-AllAsked ((name, s) ∷ rest) f g (here, loaded) before added =
        let (f', first, then) = >>=-eq-returns (add_subscription hex_to_address name s f) _ added in
        add_subscriptions-AllAsked rest f' g loaded (add_one-AllAsked name s f f' here before first)
          then

    -- Where every handler's ABI is what its pointer points to: for every event id that the first
    -- loop of processBatchLogs notes, the contract is among the addresses, and the topic is among
    -- those that FilterLogs collects from the filtered methods or is the zero that stands for a
    -- method that is no event of its ABI.
    pub add_subscriptions-asked :
        (ss : List (String × Subscribe)) (f : Filters)
        → All IsLoaded ss
        → add_subscriptions hex_to_address ss no_filters ≡ returns f
        → (k : EventMapKey) (name : String) → lookup k f.event_ids ≡ some name
        → ((k.topic ≡ 0) ⊎ (mem k.topic (event_topics abi_at f.filtered_methods) ≡ true))
          × (mem k.contract f.contract_addresses ≡ true)
    add_subscriptions-asked ss f loaded added k name found =
        let all = add_subscriptions-AllAsked ss no_filters f loaded no_filters-AllAsked added in
        (
          topic_or_zero f.filtered_methods k.topic (all.topics_asked k name found),
          all.contracts_asked k name found,
        )
