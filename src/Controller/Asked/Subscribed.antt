-- ===== src/Controller/Asked/Subscribed.antt =====
-- Every subscription that is added is asked for.
use bridge_core.Prelude.Map.{lookup, insert, nat_eq, string_eq, lookup-insert_other}
use bridge_core.Controller.Asked.{
  AsksTopic, mem, FilteredMethods, mem-left, mem-right, arith, [], subst,
}
use bridge_core.Controller.Asked.Covered.{with_method, with_method-AsksTopic, with_method-new}
use bridge_core.Controller.Filters.{
  Filters, EventMapKey, key_eq, add_contract, key_beq_iff, key_beq,
}
use bridge_core.Types.{Abi, AbiEvent, event_id}
use bridge_core.Prelude.{
  ℕ, inl, String, Bool-cases, refl, some, ◌==◌, true, inr, ◌≡◌, ◌⊎◌, arith, ◌∷◌, ==_iff, [], Option,
  subst, none, sym, ◌∙◌,
}

module _ (abi_at : ℕ → Abi) where
  -- The topic is asked for, or it is the zero of a method that no event of the ABI has.
  abbrev pub AskedTopic : FilteredMethods → ℕ → Type 0
  AskedTopic m t = (t ≡ 0) ⊎ AsksTopic abi_at m t

  pub record AllAsked (f : Filters) : Type 0 where
    pub topics_asked :
        (k : EventMapKey) (name : String)
        → lookup k f.event_ids ≡ some name
        → AskedTopic f.filtered_methods k.topic
    pub contracts_asked :
        (k : EventMapKey) (name : String)
        → lookup k f.event_ids ≡ some name
        → mem k.contract f.contract_addresses ≡ true
    pub added_asked :
        (a : ℕ) → lookup a f.added_contract ≡ some tt → mem a f.contract_addresses ≡ true

  add_contract-methods :
      (a : ℕ) (f : Filters) → (add_contract a f).filtered_methods ≡ f.filtered_methods
  add_contract-methods a f = ground arith

  add_contract-event_ids : (a : ℕ) (f : Filters) → (add_contract a f).event_ids ≡ f.event_ids
  add_contract-event_ids a f = ground arith

  add_contract-keeps :
      (a b : ℕ) (f : Filters)
      → mem b f.contract_addresses ≡ true
      → mem b (add_contract a f).contract_addresses ≡ true
  add_contract-keeps a b f there = ground (arith, there, mem-left b f.contract_addresses (a ∷ []))

  add_contract-new :
      (a : ℕ) (f : Filters)
      → (lookup a f.added_contract ≡ some tt → mem a f.contract_addresses ≡ true)
      → mem a (add_contract a f).contract_addresses ≡ true
  add_contract-new a f before =
      ground (arith, before, mem-right a f.contract_addresses (a ∷ []), ==_iff a a)

  add_contract-added :
      (a b : ℕ) (f : Filters)
      → ((c : ℕ) → lookup c f.added_contract ≡ some tt → mem c f.contract_addresses ≡ true)
      → lookup b (add_contract a f).added_contract ≡ some tt
      → mem b (add_contract a f).contract_addresses ≡ true
  add_contract-added a b f before there = elim (Bool-cases (a == b)) [
    | inl same ↦
        let equal : a ≡ b = ground (arith, same) in
        subst (λ x. mem x (add_contract a f).contract_addresses ≡ true) equal
          (add_contract-new a f (before a))
    | inr other ↦
        add_contract-keeps a b f
          (before b (ground (arith, there, other, lookup-insert_other a b tt f.added_contract)))
  ]

  AskedTopic-with_method :
      (abi : Abi) (name : String) (m : FilteredMethods) (t : ℕ)
      → AskedTopic m t
      → AskedTopic (with_method abi name m) t
  AskedTopic-with_method abi name m t (inl none_has) = inl none_has
  AskedTopic-with_method abi name m t (inr asked) =
      inr (with_method-AsksTopic abi_at abi name m t asked)

  event_id-some :
      (abi : Abi) (name : String) (e : AbiEvent)
      → lookup name abi.events ≡ some e
      → e.id ≡ event_id name abi
  event_id-some abi name e found = ground (arith, found)

  event_id-AskedTopic :
      (abi : Abi) (name : String) (m : FilteredMethods)
      → abi_at abi.pointer ≡ abi
      → (o : Option AbiEvent) → lookup name abi.events ≡ o
      → AskedTopic (with_method abi name m) (event_id name abi)
  event_id-AskedTopic abi name m loaded none found = inl (ground (arith, found))
  event_id-AskedTopic abi name m loaded (some e) found =
      subst (λ x. AskedTopic (with_method abi name m) x) (event_id-some abi name e found)
        (inr (with_method-new abi_at abi name m e loaded found))

  abbrev noted_key : Abi → String → ℕ → EventMapKey
  noted_key abi method address = record { topic = event_id method abi; contract = address }

  -- The filters when a subscription's event id has been noted.
  abbrev noted : Abi → String → ℕ → String → Filters → Filters
  noted abi method address name f = record f {
    filtered_methods = with_method abi method f.filtered_methods;
    event_ids =
        insert (record { topic = event_id method abi; contract = address }) name f.event_ids;
  }

  noted-topics :
      (abi : Abi) (method : String) (address : ℕ) (name : String) (f : Filters)
      → abi_at abi.pointer ≡ abi
      → AllAsked f
      → (k : EventMapKey) (n : String)
      → lookup k (noted abi method address name f).event_ids ≡ some n
      → AskedTopic (with_method abi method f.filtered_methods) k.topic
  noted-topics abi method address name f loaded before k n found =
      elim (Bool-cases (key_beq (noted_key abi method address) k)) [
        | inl same ↦
            subst (λ x. AskedTopic (with_method abi method f.filtered_methods) x.topic)
              ((key_beq_iff (noted_key abi method address) k).0 same)
              (event_id-AskedTopic abi method f.filtered_methods loaded (lookup method abi.events)
                refl)
        | inr other ↦ AskedTopic-with_method abi method f.filtered_methods k.topic (
            before.topics_asked k n (
              sym (lookup-insert_other (noted_key abi method address) k name f.event_ids other)
              ∙ found))
      ]

  noted-contracts :
      (abi : Abi) (method : String) (address : ℕ) (name : String) (f : Filters)
      → AllAsked f
      → (k : EventMapKey) (n : String)
      → lookup k (noted abi method address name f).event_ids ≡ some n
      → mem k.contract (add_contract address (noted abi method address name f)).contract_addresses
        ≡ true
  noted-contracts abi method address name f before k n found =
      elim (Bool-cases (key_beq (noted_key abi method address) k)) [
        | inl same ↦
            subst
              (λ x.
                mem x.contract
                  (add_contract address (noted abi method address name f)).contract_addresses
                ≡ true)
              ((key_beq_iff (noted_key abi method address) k).0 same)
              (add_contract-new address (noted abi method address name f)
                (before.added_asked address))
        | inr other ↦ add_contract-keeps address k.contract (noted abi method address name f) (
            before.contracts_asked k n (
              sym (lookup-insert_other (noted_key abi method address) k name f.event_ids other)
              ∙ found))
      ]

  pub add_subscription-AllAsked :
      (abi : Abi) (method : String) (address : ℕ) (name : String) (f : Filters)
      → abi_at abi.pointer ≡ abi
      → AllAsked f
      → AllAsked (add_contract address (noted abi method address name f))
  add_subscription-AllAsked abi method address name f loaded before = record {
    topics_asked = λ k n found.
        rw (add_contract-methods address (noted abi method address name f)) (
          noted-topics abi method address name f loaded before k n (
            subst (λ x. lookup k x ≡ some n)
              (add_contract-event_ids address (noted abi method address name f)) found));
    contracts_asked = λ k n found. noted-contracts abi method address name f before k n (
        subst (λ x. lookup k x ≡ some n)
          (add_contract-event_ids address (noted abi method address name f)) found);
    added_asked = λ b there.
        add_contract-added address b (noted abi method address name f) before.added_asked there;
  }
