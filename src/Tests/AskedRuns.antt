-- ===== src/Tests/AskedRuns.antt =====
-- What is asked of the node for the subscriptions of Batches.
use bridge_core.Controller.Filters.{EventMapKey}
use bridge_core.Utils.Filter.{event_topics}
use bridge_core.Prelude.{ℕ, ◌≡◌, ◌⊎◌, refl, true, All}
use bridge_core.Types.{Abi}
use bridge_core.Controller.Asked.{mem}
use bridge_core.Controller.Asked.Whole.{IsLoaded, add_subscriptions-asked}
use bridge_core.Tests.Batches.{watcher, gateway, built, built_filters}

abbrev at_gateway : ℕ → Abi
at_gateway p = gateway

deposits-IsLoaded : All (IsLoaded at_gateway) watcher.subscriptions
deposits-IsLoaded = ((λ h abi handler its_abi. cc), tt)

abbrev deposit_key : EventMapKey
deposit_key = record { topic = 42; contract = 9 }

add_subscriptions-asked_example :
    ((deposit_key.topic ≡ 0) ⊎ (mem 42 (event_topics at_gateway built.filtered_methods) ≡ true))
    × (mem 9 built.contract_addresses ≡ true)
add_subscriptions-asked_example =
    add_subscriptions-asked at_gateway (λ s. 9) watcher.subscriptions built deposits-IsLoaded
      built_filters deposit_key "Deposits" refl
