-- ===== src/Controller/Setup.antt =====
-- NewWithContext up to its workers: the listeners of the configuration. Its pool and its workers are
-- Pool.Setup. ABIMaps and GetAbi are parameters, as is what the application registered by AddListener;
-- an init function returns `none` for nil. AddListeners, which hands every listener the
-- controller's own map, is a call on the listener only.
pub mod Kinds
pub mod Abis
pub mod Connections
use bridge_core.Prelude.{
  ℕ, ◌*◌, String, Bool, true, false, ◌||◌, Option, none, some, List, [], ◌∷◌, ◌==◌, if◌then◌else◌,
  not, ◌^◌,
}
use bridge_core.Prelude.Map.{string_eq, nat_eq, lookup, insert}
use bridge_core.Prelude.Outcome.{Outcome, returns, ◌>>=◌, deref}
use bridge_core.Types.{Abi, Handler, Subscribe, Listener, LsConfig}

abbrev pub default_batch_size : ℕ
default_batch_size = 100

abbrev pub default_task_interval : ℕ
default_task_interval = 3

-- `listeners[name] = initFunc`
abbrev pub add_listener : {F : Type 0} → String → F → List (String × F) → List (String × F)
add_listener name init registry = insert name init registry

-- A call of the set-up that may return an error.
pub data Made (A : Type 0) : Type 0 where
  made : A → Made A
  abi_error : Made A
  nil_listener : Made A

abbrev pub if_made : {A B : Type 0} → (A → Outcome (Made B)) → Made A → Outcome (Made B)
if_made f (made a) = f a
if_made f abi_error = returns abi_error
if_made f nil_listener = returns nil_listener

abbrev pub map_made : {A B : Type 0} → (A → B) → Made A → Made B
map_made f (made a) = made (f a)
map_made f abi_error = abi_error
map_made f nil_listener = nil_listener

abbrev pub is_none : {A : Type 0} → Option A → Bool
is_none none = true
is_none (some a) = false

-- ABIMaps, and GetAbi of a MetaData that may be nil
pub record AbiMaps (M : Type 0) : Type 0 where
  pub metadata : String → Option M
  pub get_abi : Option M → Outcome (Option Abi)

module _ {M : Type 0} (maps : AbiMaps M) where
  abbrev pub with_abi : String → Subscribe → Handler → Option Abi → Made (String × Subscribe)
  with_abi name s h none = abi_error
  with_abi name s h (some a) = made (name, record s { handler = some (record h { abi = some a }) })

  -- One subscription of LoadABIsFromConfig.
  unfoldable pub load_abi_of : String → Subscribe → Handler → Outcome (Made (String × Subscribe))
  load_abi_of name s h =
      if string_eq.beq h.contract "" || not (is_none h.abi)
      then returns (made (name, s))
      else (maps.get_abi (maps.metadata h.contract) >>= λ a. returns (with_abi name s h a))

  -- LoadABIsFromConfig on the subscriptions of a configuration
  unfoldable pub load_abis_from_config :
      List (String × Subscribe) → Outcome (Made (List (String × Subscribe)))
  unfolding load_abi_of
  load_abis_from_config [] = returns (made [])
  load_abis_from_config ((name, s) ∷ rest) = do
    h ← deref s.handler
    m ← load_abi_of name s h
    if_made (λ e. load_abis_from_config rest >>= λ es. returns (map_made (◌∷◌ e) es)) m

-- `if c.hasSubscriptionType[name][type] { continue }; c.hasSubscriptionType[name][type] = true`
abbrev pub is_set : ℕ → List (ℕ × Bool) → Bool
is_set type m = elim (lookup type m) [ none ↦ false | some b ↦ b ]

unfoldable pub subscription_types : List (String × Subscribe) → List (ℕ × Bool) → List (ℕ × Bool)
subscription_types [] m = m
subscription_types ((name, s) ∷ rest) m =
    subscription_types rest (if is_set s.type_of m then m else insert s.type_of true m)

-- What the loop over the configuration fills.
pub record Connected : Type 0 where
  pub listeners : List (String × Listener)
  pub has_subscription_types : List (String × List (ℕ × Bool))
  pub configs : List (String × LsConfig)

abbrev pub not_connected : Connected
not_connected = record { listeners = []; has_subscription_types = []; configs = [] }

-- LoadInterval in nanoseconds, and the name.
abbrev pub with_interval : String → LsConfig → LsConfig
with_interval name cfg = record cfg {
  load_interval =
      (if cfg.load_interval == 0 then default_task_interval else cfg.load_interval) * 10 ^ 9;
  config_name = name;
}

abbrev pub with_batch_size : LsConfig → LsConfig
with_batch_size cfg = record cfg {
  get_logs_batch_size =
      if cfg.get_logs_batch_size == 0 then default_batch_size else cfg.get_logs_batch_size;
}

abbrev pub joined : String → LsConfig → Connected → Listener → Connected
joined name cfg c l = record {
  listeners = insert name l c.listeners;
  has_subscription_types =
      insert name (subscription_types l.subscriptions []) c.has_subscription_types;
  configs = insert name (with_batch_size cfg) c.configs;
}

module _ {M : Type 0} (maps : AbiMaps M)
    (registry : List (String × (LsConfig → Option Listener))) where
  abbrev pub connect : String → LsConfig → Connected → Option Listener → Made Connected
  connect name cfg c none = nil_listener
  connect name cfg c (some l) = made (joined name cfg c l)

  -- A configuration whose name is not registered is skipped.
  abbrev pub init_listener :
      String → LsConfig → Connected → Option (LsConfig → Option Listener) → Made Connected
  init_listener name cfg c none = made c
  init_listener name cfg c (some init) = connect name cfg c (init cfg)

  unfoldable pub connect_one : String → LsConfig → Connected → Outcome (Made Connected)
  unfolding load_abis_from_config subscription_types
  connect_one name cfg c = do
    loaded ← load_abis_from_config maps cfg.config_subscriptions
    if_made
        (λ subs. returns (
          init_listener name (record (with_interval name cfg) { config_subscriptions = subs }) c
            (lookup name registry)))
        loaded

  unfoldable pub connect_listeners : List (String × LsConfig) → Connected → Outcome (Made Connected)
  unfolding connect_one
  connect_listeners [] c = returns (made c)
  connect_listeners ((name, cfg) ∷ rest) c = do
    m ← connect_one name cfg c
    if_made (connect_listeners rest) m
