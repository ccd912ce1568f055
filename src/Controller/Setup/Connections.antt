-- ===== src/Controller/Setup/Connections.antt =====
-- The listeners that NewWithContext connects.
use bridge_core.Controller.Behind.Blocks.{has_subscription_type}
use bridge_core.Controller.Setup.Kinds.{subscription_types_lem}
use bridge_core.Prelude.Outcome.{Outcome-cases, returns}
use bridge_core.Prelude.Map.{lookup, insert, string_eq, lookup-insert}
use bridge_core.Types.{LsConfig, Listener}
use bridge_core.Controller.Setup.{
  AbiMaps, Connected, subscription_types, with_batch_size, lookup, [], made, insert, false, joined,
  init_listener, connect_one, with_interval, abi_error, load_abis_from_config, nil_listener,
  connect_listeners, is_set, not_connected,
}
use bridge_core.Prelude.{
  ◌≡◌, some, List, ◌<◌, Option, String, [], arith, false, Option-cases, none, inr, inl, refl, ap,
  Bool-cases, sym, ◌∙◌, if◌then◌else◌, subst, Bool, ℕ, ◌∷◌,
}

at_self {κ} :
    {V : Type κ} (k : String) (v : V) (m : List (String × V)) → lookup k (insert k v m) ≡ some v
at_self k v m = ground (arith, lookup-insert k k v m, string_eq.beq_iff k k)

at_other {κ} :
    {V : Type κ} (k j : String) (v : V) (m : List (String × V))
    → string_eq.beq k j ≡ false
    → lookup j (insert k v m) ≡ lookup j m
at_other k j v m other = ground (arith, lookup-insert k j v m, other)

module _ {M : Type 0} (maps : AbiMaps M)
    (registry : List (String × (LsConfig → Option Listener))) where
  -- What is known of a listener of the controller.
  pub record IsConnected (c : Connected) (name : String) (l : Listener) : Type 0 where
    pub init : LsConfig → Option Listener
    pub given : LsConfig
    pub kept : LsConfig
    pub registered : lookup name registry ≡ some init
    pub makes : init given ≡ some l
    pub same_name : given.config_name ≡ name
    pub kinds : lookup name c.has_subscription_types ≡ some (subscription_types l.subscriptions [])
    pub configured : lookup name c.configs ≡ some kept
    pub positive : 0 < kept.get_logs_batch_size

  abbrev AllConnected : Connected → Type 0
  AllConnected c =
      (name : String) (l : Listener) → lookup name c.listeners ≡ some l → IsConnected c name l

  joined-new :
      (n : String) (cfg : LsConfig) (c : Connected) (init : LsConfig → Option Listener)
      (l : Listener)
      → lookup n registry ≡ some init
      → init cfg ≡ some l
      → cfg.config_name ≡ n
      → IsConnected (joined n cfg c l) n l
  joined-new n cfg c init l known made_it named = record {
    init = init;
    given = cfg;
    kept = with_batch_size cfg;
    registered = known;
    makes = made_it;
    same_name = named;
    kinds = at_self n (subscription_types l.subscriptions []) c.has_subscription_types;
    configured = at_self n (with_batch_size cfg) c.configs;
    positive = ground arith;
  }

  joined-old :
      (n name : String) (cfg : LsConfig) (c : Connected) (l l' : Listener)
      → string_eq.beq n name ≡ false
      → IsConnected c name l'
      → IsConnected (joined n cfg c l) name l'
  joined-old n name cfg c l l' other i = record {
    init = i.init;
    given = i.given;
    kept = i.kept;
    registered = i.registered;
    makes = i.makes;
    same_name = i.same_name;
    kinds =
        at_other n name (subscription_types l.subscriptions []) c.has_subscription_types other
        ∙ i.kinds;
    configured = at_other n name (with_batch_size cfg) c.configs other ∙ i.configured;
    positive = i.positive;
  }

  joined-AllConnected :
      (n : String) (cfg : LsConfig) (c : Connected) (init : LsConfig → Option Listener)
      (l : Listener)
      → lookup n registry ≡ some init
      → init cfg ≡ some l
      → cfg.config_name ≡ n
      → AllConnected c
      → AllConnected (joined n cfg c l)
  joined-AllConnected n cfg c init l known made_it named all name l' there =
      elim (Bool-cases (string_eq.beq n name)) [
        | inl same ↦
            let equal : n ≡ name = (string_eq.beq_iff n name).0 same in
            let found : lookup name (insert n l c.listeners) ≡ some l =
              lookup-insert n name l c.listeners
              ∙ ap (λ b. if b then some l else lookup name c.listeners) same in
            let it : l ≡ l' = cc in
            subst (IsConnected (joined n cfg c l) name) it (
              subst (λ x. IsConnected (joined n cfg c l) x l) equal
                (joined-new n cfg c init l known made_it named))
        | inr other ↦
            joined-old n name cfg c l l' other
              (all name l' (sym (at_other n name l c.listeners other) ∙ there))
      ]

  init-AllConnected :
      (n : String) (cfg : LsConfig) (c c' : Connected) (o : Option (LsConfig → Option Listener))
      → lookup n registry ≡ o
      → cfg.config_name ≡ n
      → init_listener maps registry n cfg c o ≡ made c'
      → AllConnected c
      → AllConnected c'
  init-AllConnected n cfg c c' none known named st all =
      let same : c ≡ c' = ground arith in subst AllConnected same all
  init-AllConnected n cfg c c' (some init) known named st all = elim (Option-cases (init cfg)) [
    | inl nil ↦ ground (arith, nil, st)
    | inr (l, made_it) ↦
        let same : joined n cfg c l ≡ c' = ground (arith, made_it, st) in
        subst AllConnected same (joined-AllConnected n cfg c init l known made_it named all)
  ]

  connect_one-AllConnected :
      (n : String) (cfg : LsConfig) (c c' : Connected)
      → connect_one maps registry n cfg c ≡ returns (made c')
      → AllConnected c
      → AllConnected c'
  unfolding connect_one
  connect_one-AllConnected n cfg c c' st all =
      elim (Outcome-cases (load_abis_from_config maps cfg.config_subscriptions)) [
        | inl panicked ↦ ground (arith, panicked, st)
        | inr (abi_error, failed) ↦ ground (arith, failed, st)
        | inr (nil_listener, failed) ↦ ground (arith, failed, st)
        | inr (made subs, loaded) ↦
            init-AllConnected n (record (with_interval n cfg) { config_subscriptions = subs }) c c'
              (lookup n registry) refl refl (ground (arith, loaded, st)) all
      ]

  connect_listeners-AllConnected :
      (cfgs : List (String × LsConfig)) (c c' : Connected)
      → connect_listeners maps registry cfgs c ≡ returns (made c')
      → AllConnected c
      → AllConnected c'
  unfolding connect_listeners
  connect_listeners-AllConnected [] c c' st all =
      let same : c ≡ c' = ground arith in subst AllConnected same all
  connect_listeners-AllConnected ((n, cfg) ∷ rest) c c' st all =
      elim (Outcome-cases (connect_one maps registry n cfg c)) [
        | inl panicked ↦ ground (arith, panicked, st)
        | inr (abi_error, failed) ↦ ground (arith, failed, st)
        | inr (nil_listener, failed) ↦ ground (arith, failed, st)
        | inr (made d, joined_it) ↦
            connect_listeners-AllConnected rest d c' (ground (arith, joined_it, st))
              (connect_one-AllConnected n cfg c d joined_it all)
      ]

  -- When the set-up of the listeners succeeds, every listener of the controller was made by the init
  -- function registered under its name, from a configuration with that name; the controller's map
  -- says of every kind of subscription whether the listener has one of that kind; and its batch size
  -- is not zero.
  pub connect_listeners_lem :
      (cfgs : List (String × LsConfig)) (c : Connected)
      → connect_listeners maps registry cfgs not_connected ≡ returns (made c)
      → (name : String) (l : Listener) → lookup name c.listeners ≡ some l
      → IsConnected c name l
        × (kinds : List (ℕ × Bool)) × (lookup name c.has_subscription_types ≡ some kinds)
        × ((t : ℕ) → is_set t kinds ≡ has_subscription_type t l.subscriptions)
  connect_listeners_lem cfgs c st name l there =
      let i =
        connect_listeners-AllConnected cfgs not_connected c st (λ n k none_yet. cc) name l there in
      (
        i,
        subscription_types l.subscriptions [],
        i.kinds,
        λ t. subscription_types_lem t l.subscriptions,
      )
