-- ===== src/Controller/Setup/Abis.antt =====
-- What LoadABIsFromConfig promises to processBatchLogs.
use bridge_core.Prelude.Map.{string_eq}
use bridge_core.Prelude.Outcome.{returns, Outcome, ◌>>=◌, panics, Outcome-cases, deref}
use bridge_core.Types.{Abi, Handler, Subscribe}
use bridge_core.Controller.Setup.{
  AbiMaps, is_none, load_abis_from_config, load_abi_of, made, Made, nil_listener, map_made,
  abi_error, if_made, deref,
}
use bridge_core.Controller.Filters.{add_subscriptions, Filters, no_filters, add_subscription}
use bridge_core.Prelude.{
  ℕ, ◌≡◌, String, refl, ◌⊎◌, some, ◌∷◌, All, false, List, [], Option-cases, subst, ap, none, inl,
  inr, arith, ◌∙◌, sym,
}

-- A subscription whose handler names a contract, or has its ABI already.
abbrev pub NamesAbi : String × Subscribe → Type 0
NamesAbi (name, s) =
    (h : Handler) × (s.handler ≡ some h)
    × ((string_eq.beq h.contract "" ≡ false) ⊎ (is_none h.abi ≡ false))

-- A subscription whose handler has an ABI.
abbrev pub HasAbi : String × Subscribe → Type 0
HasAbi (name, s) = (h : Handler) × (a : Abi) × (s.handler ≡ some h) × (h.abi ≡ some a)

add_subscriptions-returns :
    (hex_to_address : String → ℕ) (subs : List (String × Subscribe)) (f : Filters)
    → All HasAbi subs
    → (f' : Filters) × (add_subscriptions hex_to_address subs f ≡ returns f')
unfolding add_subscriptions add_subscription
add_subscriptions-returns hex [] f all = (f, refl)
add_subscriptions-returns hex ((name, s) ∷ rest) f ((h, a, there, loaded), all) =
    elim (Outcome-cases (add_subscription hex name s f)) [
      | inl panicked ↦ ground (arith, panicked, there, loaded)
      | inr (f', went) ↦
          let (g, rest_went) = add_subscriptions-returns hex rest f' all in
          (g, rw (went, ◌>>=◌) rest_went)
    ]

cons-HasAbi :
    (m : Made (String × Subscribe)) (r : Outcome (Made (List (String × Subscribe))))
    (subs : List (String × Subscribe))
    → ((e : String × Subscribe) → m ≡ made e → HasAbi e)
    → ((es : List (String × Subscribe)) → r ≡ returns (made es) → All HasAbi es)
    → if_made (λ e. r >>= λ es. returns (map_made (◌∷◌ e) es)) m ≡ returns (made subs)
    → All HasAbi subs
cons-HasAbi abi_error r subs first rest st = ground arith
cons-HasAbi nil_listener r subs first rest st = ground arith
cons-HasAbi (made e) panics subs first rest st = cc
cons-HasAbi (made e) (returns (made es)) subs first rest st =
    let same : e ∷ es ≡ subs = ground arith in subst (All HasAbi) same (first e refl, rest es refl)
cons-HasAbi (made e) (returns abi_error) subs first rest st = ground arith
cons-HasAbi (made e) (returns nil_listener) subs first rest st = ground arith

module _ {M : Type 0} (maps : AbiMaps M) where
  load_abi_of-HasAbi :
      (name : String) (s : Subscribe) (h : Handler) (e : String × Subscribe)
      → s.handler ≡ some h
      → (string_eq.beq h.contract "" ≡ false) ⊎ (is_none h.abi ≡ false)
      → load_abi_of maps name s h ≡ returns (made e)
      → HasAbi e
  unfolding load_abi_of
  load_abi_of-HasAbi name s h e there names st = elim (Option-cases h.abi) [
    | inr (a, loaded) ↦
        let same : (name, s) ≡ e = ground (arith, loaded) in subst HasAbi same (h, a, there, loaded)
    | inl unloaded ↦ elim (Outcome-cases (maps.get_abi (maps.metadata h.contract))) [
      | inl panicked ↦ ground (arith, unloaded, panicked, names)
      | inr (none, got) ↦ ground (arith, unloaded, got, names)
      | inr (some a, got) ↦
          let same : (name, record s { handler = some (record h { abi = some a }) }) ≡ e =
            ground (arith, unloaded, got, names) in
          subst HasAbi same (record h { abi = some a }, a, refl, refl)
    ]
  ]

  split_load :
      (name : String) (s : Subscribe) (rest : List (String × Subscribe)) (h : Handler)
      (m : Made (String × Subscribe)) (subs : List (String × Subscribe))
      → s.handler ≡ some h
      → load_abi_of maps name s h ≡ returns m
      → load_abis_from_config maps ((name, s) ∷ rest) ≡ returns (made subs)
      → if_made (λ e. load_abis_from_config maps rest >>= λ es. returns (map_made (◌∷◌ e) es)) m
        ≡ returns (made subs)
  unfolding load_abis_from_config
  split_load name s rest h m subs there got st =
      let whole : (deref s.handler >>= λ h'. load_abi_of maps name s h' >>= λ m'.
      if_made (λ e. load_abis_from_config maps rest >>= λ es. returns (map_made (◌∷◌ e) es)) m')
          ≡ returns (made subs) =
        st in
      ap
        (λ o. o >>= λ m'.
          if_made (λ e. load_abis_from_config maps rest >>= λ es. returns (map_made (◌∷◌ e) es)) m')
        (sym got)
      ∙ ap
          (λ o. deref o >>= λ h'. load_abi_of maps name s h' >>= λ m'.
            if_made (λ e. load_abis_from_config maps rest >>= λ es. returns (map_made (◌∷◌ e) es))
              m')
          (sym there)
      ∙ whole

  load_abis-HasAbi :
      (subs subs' : List (String × Subscribe))
      → All NamesAbi subs
      → load_abis_from_config maps subs ≡ returns (made subs')
      → All HasAbi subs'
  unfolding load_abis_from_config
  load_abis-HasAbi [] subs' all st =
      let none_left : [] ≡ subs' = ground arith in subst (All HasAbi) none_left tt
  load_abis-HasAbi ((name, s) ∷ rest) subs' ((h, there, names), all) st =
      elim (Outcome-cases (load_abi_of maps name s h)) [
        | inl panicked ↦ ground (arith, there, panicked)
        | inr (m, got) ↦
            cons-HasAbi m (load_abis_from_config maps rest) subs'
              (λ e first. load_abi_of-HasAbi name s h e there names (got ∙ ap returns first))
              (λ es went. load_abis-HasAbi rest es all went)
              (split_load name s rest h m subs' there got st)
      ]

  -- When LoadABIsFromConfig succeeds on subscriptions that all name a contract or have an ABI already,
  -- the loop of processBatchLogs over the subscriptions does not panic on them, whatever else they
  -- hold.
  pub load_abis-add_subscriptions :
      (hex_to_address : String → ℕ) (subs subs' : List (String × Subscribe))
      → All NamesAbi subs
      → load_abis_from_config maps subs ≡ returns (made subs')
      → (f : Filters) × (add_subscriptions hex_to_address subs' no_filters ≡ returns f)
  load_abis-add_subscriptions hex subs subs' all st =
      add_subscriptions-returns hex subs' no_filters (load_abis-HasAbi subs subs' all st)
