-- ===== src/Controller/Asked/Covered.antt =====
-- The events that are asked for once a subscription's method is filtered.
use bridge_core.Prelude.Map.{
  lookup, insert, nat_eq, string_eq, lookup-insert_same, lookup-insert, lookup-insert_other,
}
use bridge_core.Controller.Asked.{AsksTopic, FilteredMethods, lookup}
use bridge_core.Controller.Filters.{methods_at}
use bridge_core.Types.{Abi, AbiEvent}
use bridge_core.Controller.Filters.{key_eq}
use bridge_core.Prelude.{
  ◌∙◌, ap, sym, subst, arith, ℕ, inl, String, Bool-cases, refl, some, ◌==◌, true, inr, ◌≡◌, List,
}

-- filteredMethods with the method of a subscription.
abbrev pub with_method : Abi → String → FilteredMethods → FilteredMethods
with_method abi name m = insert abi.pointer (insert name tt (methods_at abi.pointer m)) m

module _ (abi_at : ℕ → Abi) where
  methods_at-some :
      (p : ℕ) (m : FilteredMethods) (ms : List (String × Unit {0}))
      → lookup p m ≡ some ms
      → methods_at p m ≡ ms
  methods_at-some p m ms found = ground (arith, found)

  named_after :
      (name n : String) (ms : List (String × Unit {0}))
      → lookup n ms ≡ some tt
      → lookup n (insert name tt ms) ≡ some tt
  named_after name n ms there = ground (arith, lookup-insert name n tt ms, there)

  filtered_after :
      (abi : Abi) (name : String) (m : FilteredMethods) (p : ℕ) (ms : List (String × Unit {0}))
      → lookup p m ≡ some ms
      → (abi.pointer == p) ≡ true
      → lookup p (with_method abi name m) ≡ some (insert name tt ms)
  filtered_after abi name m p ms there same =
      let equal : abi.pointer ≡ p = ground (arith, same) in
      let old : methods_at abi.pointer m ≡ ms =
        methods_at-some abi.pointer m ms (subst (λ x. lookup x m ≡ some ms) (sym equal) there) in
      subst (λ x. lookup x (with_method abi name m) ≡ some (insert name tt ms)) equal
        (lookup-insert_same abi.pointer (insert name tt (methods_at abi.pointer m)) m
          ∙ ap (λ x. some (insert name tt x)) old)

  pub with_method-AsksTopic :
      (abi : Abi) (name : String) (m : FilteredMethods) (t : ℕ)
      → AsksTopic abi_at m t
      → AsksTopic abi_at (with_method abi name m) t
  with_method-AsksTopic abi name m t a = elim (Bool-cases (abi.pointer == a.pointer)) [
    | inl same ↦ record {
      pointer = a.pointer;
      methods = insert name tt a.methods;
      name = a.name;
      event = a.event;
      filtered = filtered_after abi name m a.pointer a.methods a.filtered same;
      named = named_after name a.name a.methods a.named;
      has_event = a.has_event;
      its_id = a.its_id;
    }
    | inr other ↦ record {
      pointer = a.pointer;
      methods = a.methods;
      name = a.name;
      event = a.event;
      filtered =
          lookup-insert_other abi.pointer a.pointer (insert name tt (methods_at abi.pointer m)) m
            other
          ∙ a.filtered;
      named = a.named;
      has_event = a.has_event;
      its_id = a.its_id;
    }
  ]

  pub with_method-new :
      (abi : Abi) (name : String) (m : FilteredMethods) (e : AbiEvent)
      → abi_at abi.pointer ≡ abi
      → lookup name abi.events ≡ some e
      → AsksTopic abi_at (with_method abi name m) e.id
  with_method-new abi name m e loaded there = record {
    pointer = abi.pointer;
    methods = insert name tt (methods_at abi.pointer m);
    name = name;
    event = e;
    filtered = lookup-insert_same abi.pointer (insert name tt (methods_at abi.pointer m)) m;
    named = lookup-insert_same name tt (methods_at abi.pointer m);
    has_event = rw loaded there;
    its_id = refl;
  }
