-- ===== src/Controller/Asked.antt =====
-- What processBatchLogs asks of the node is enough for its subscriptions: the query that FilterLogs
-- builds from the filters names the event and the contract of every subscription.
pub mod Covered
pub mod Subscribed
pub mod Whole
use bridge_core.Controller.Filters.{Filters}
use bridge_core.Utils.Filter.{event_topics, method_topics}
use bridge_core.Prelude.Map.{string_eq, lookup, nat_eq}
use bridge_core.Types.{Abi, AbiEvent}
use bridge_core.Prelude.{
  ℕ, List, refl, Bool-cases, true, sym, arith, ◌++◌, inr, String, ◌||◌, ◌==◌, ◌≡◌, inl, some, ◌∷◌,
  false, Bool, [], subst,
}

-- The type of filteredMethods.
abbrev pub FilteredMethods : Type 0
FilteredMethods = List (ℕ × List (String × Unit {0}))

abbrev pub mem : ℕ → List ℕ → Bool
mem a [] = false
mem a (x ∷ xs) = (x == a) || mem a xs

mem-append : (a : ℕ) (xs ys : List ℕ) → mem a (xs ++ ys) ≡ (mem a xs || mem a ys)
mem-append a [] ys = refl
mem-append a (x ∷ xs) ys = let rest = mem-append a xs ys in ground (arith, rest)

mem-left : (a : ℕ) (xs ys : List ℕ) → mem a xs ≡ true → mem a (xs ++ ys) ≡ true
mem-left a xs ys h = ground (arith, mem-append a xs ys)

mem-right : (a : ℕ) (xs ys : List ℕ) → mem a ys ≡ true → mem a (xs ++ ys) ≡ true
mem-right a xs ys h = ground (arith, mem-append a xs ys)

module _ (abi_at : ℕ → Abi) where
  -- The topic is the id of an event of an ABI, whose name is among the filtered methods of that ABI.
  pub record AsksTopic (ms : FilteredMethods) (topic : ℕ) : Type 0 where
    pub pointer : ℕ
    pub methods : List (String × Unit {0})
    pub name : String
    pub event : AbiEvent
    pub filtered : lookup pointer ms ≡ some methods
    pub named : lookup name methods ≡ some tt
    pub has_event : lookup name (abi_at pointer).events ≡ some event
    pub its_id : event.id ≡ topic

  method_topics-mem :
      (abi : Abi) (name : String) (e : AbiEvent) (methods : List (String × Unit {0}))
      → lookup name methods ≡ some tt
      → lookup name abi.events ≡ some e
      → mem e.id (method_topics abi_at abi methods) ≡ true
  method_topics-mem abi name e [] there found = cc
  method_topics-mem abi name e ((n, u) ∷ rest) there found =
      elim (Bool-cases (string_eq.beq n name)) [
        | inl same ↦
            let equal : n ≡ name = (string_eq.beq_iff n name).0 same in
            let here : lookup n abi.events ≡ some e =
              subst (λ x. lookup x abi.events ≡ some e) (sym equal) found in
            ground (arith, here)
        | inr other ↦
            mem-right e.id _ (method_topics abi_at abi rest)
              (method_topics-mem abi name e rest (ground (arith, other, there)) found)
      ]

  event_topics-at :
      (ms : FilteredMethods) (pointer t : ℕ) (methods : List (String × Unit {0}))
      → lookup pointer ms ≡ some methods
      → mem t (method_topics abi_at (abi_at pointer) methods) ≡ true
      → mem t (event_topics abi_at ms) ≡ true
  unfolding event_topics
  event_topics-at [] pointer t methods there found = cc
  event_topics-at ((p, names) ∷ rest) pointer t methods there found =
      elim (Bool-cases (p == pointer)) [
        | inl same ↦
            let equal : pointer ≡ p = ground (arith, same) in
            let names_are : methods ≡ names = ground (arith, same, there) in
            mem-left t (method_topics abi_at (abi_at p) names) (event_topics abi_at rest) (
              subst (λ x. mem t (method_topics abi_at (abi_at x) names) ≡ true) equal
                (subst (λ x. mem t (method_topics abi_at (abi_at pointer) x) ≡ true) names_are
                  found))
        | inr other ↦
            mem-right t (method_topics abi_at (abi_at p) names) (event_topics abi_at rest)
              (event_topics-at rest pointer t methods (ground (arith, other, there)) found)
      ]

  pub event_topics-mem :
      (ms : FilteredMethods) (t : ℕ) → AsksTopic ms t → mem t (event_topics abi_at ms) ≡ true
  event_topics-mem ms t a =
      subst (λ x. mem x (event_topics abi_at ms) ≡ true) a.its_id
        (event_topics-at ms a.pointer a.event.id a.methods a.filtered
          (method_topics-mem (abi_at a.pointer) a.name a.event a.methods a.named a.has_event))
