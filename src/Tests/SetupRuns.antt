-- ===== src/Tests/SetupRuns.antt =====
-- A set-up of one listener, and calls of Close.
use bridge_core.Prelude.Map.{lookup, string_eq}
use bridge_core.Tests.Samples.{idle_pool}
use bridge_core.Controller.Setup.Abis.{load_abis-add_subscriptions}
use bridge_core.Controller.Behind.Blocks.{has_subscription_type}
use bridge_core.Controller.Close.Hang.{then_happens, at_start, close-never_returns}
use bridge_core.Job.Base.{BaseJob}
use bridge_core.Job.Handler.{base_handler}
use bridge_core.Controller.Close.{Running, own_context_done, wait_returns, close, closes, happen}
use bridge_core.Controller.Filters.{Filters, no_filters, add_subscriptions}
use bridge_core.Controller.Setup.Connections.{IsConnected, connect_listeners_lem}
use bridge_core.Prelude.Outcome.{Outcome, returns}
use bridge_core.Controller.Setup.{
  AbiMaps, Connected, connect_listeners, is_set, load_abis_from_config, add_listener,
  subscription_types, not_connected, load_abi_of, Made, connect_one, made,
}
use bridge_core.Types.{Subscribe, LsConfig, Listener}
use bridge_core.Prelude.{
  ℕ, List, true, false, Bool, refl, some, none, String, Option, inl, ◌≡◌, ◌∷◌, [],
}
use bridge_core.Tests.Batches.{gateway, deposits}

-- A subscription that names the contract of its ABI.
abbrev named_deposits : Subscribe
named_deposits = record {
  from = "";
  to = "0x9";
  type_of = 1;
  handler = some (record {
    contract = "Gateway";
    name = "Deposited";
    contract_address = "";
    listener = "";
    abi = none;
    handle_method = "";
  });
  callbacks = [];
}

abbrev maps : AbiMaps ℕ
maps = record { metadata = λ name. some 1; get_abi = λ m. returns (some gateway) }

abbrev config : LsConfig
config = record {
  config_name = "";
  load_interval = 0;
  config_subscriptions = ("Deposits", named_deposits) ∷ [];
  process_within_blocks = 0;
  get_logs_batch_size = 0;
}

-- The application's listener keeps the subscriptions of its configuration.
abbrev make_listener : LsConfig → Option Listener
make_listener cfg = some (record {
  listener_name = cfg.config_name;
  subscriptions = cfg.config_subscriptions;
  is_disabled = false;
})

abbrev registry : List (String × (LsConfig → Option Listener))
registry = add_listener "Ronin" make_listener []

abbrev configs : List (String × LsConfig)
configs = ("Ronin", config) ∷ ("Ethereum", config) ∷ []

abbrev connected : Outcome (Made Connected) → Connected
connected (returns (made c)) = c
connected _ = not_connected

abbrev result : Connected
result = record {
  listeners =
      (
        "Ronin",
        record {
          listener_name = "Ronin";
          subscriptions = ("Deposits", deposits) ∷ [];
          is_disabled = false;
        },
      )
      ∷ [];
  has_subscription_types = ("Ronin", (1, true) ∷ []) ∷ [];
  configs =
      (
        "Ronin",
        record {
          config_name = "Ronin";
          load_interval = 3000000000;
          config_subscriptions = ("Deposits", deposits) ∷ [];
          process_within_blocks = 0;
          get_logs_batch_size = 100;
        },
      )
      ∷ [];
}

-- The configuration with no registered listener is skipped.
setup_run : connect_listeners maps registry configs not_connected ≡ returns (made result)
unfolding connect_listeners connect_one load_abis_from_config load_abi_of subscription_types
setup_run = refl

abbrev ronin : Listener
ronin = record {
  listener_name = "Ronin";
  subscriptions = ("Deposits", deposits) ∷ [];
  is_disabled = false;
}

connect_listeners_lem_example :
    IsConnected maps registry result "Ronin" ronin
    × (kinds : List (ℕ × Bool)) × (lookup "Ronin" result.has_subscription_types ≡ some kinds)
    × ((t : ℕ) → is_set t kinds ≡ has_subscription_type t ronin.subscriptions)
connect_listeners_lem_example =
    connect_listeners_lem maps registry configs result setup_run "Ronin" ronin refl

loaded_run :
    load_abis_from_config maps (("Deposits", named_deposits) ∷ [])
    ≡ returns (made (("Deposits", deposits) ∷ []))
unfolding load_abis_from_config load_abi_of
loaded_run = refl

load_abis-add_subscriptions_example :
    (f : Filters) × (add_subscriptions (λ s. 9) (("Deposits", deposits) ∷ []) no_filters
      ≡ returns f)
load_abis-add_subscriptions_example =
    load_abis-add_subscriptions maps (λ s. 9) (("Deposits", named_deposits) ∷ [])
      (("Deposits", deposits) ∷ []) ((_, refl, inl refl), tt) loaded_run

abbrev running : Running BaseJob
running = record { pool = idle_pool; cancel_called = false }

abbrev closed : Running BaseJob
closed = record { pool = idle_pool; cancel_called = true }

closed_again : happen base_handler closes (close running) ≡ some closed
unfolding happen
closed_again = refl

close-never_returns_example :
    (wait_returns closed.pool.main ≡ false)
    × (own_context_done (close running) ≡ true)
    × (closed.pool.cancelled ≡ false)
close-never_returns_example =
    close-never_returns base_handler {c = running} {d = running} {e = closed} {xs = []}
      {ys = closes ∷ []} (record { not_cancelled = refl; still_open = refl; loops = refl }) at_start
      (then_happens at_start closed_again) refl refl
