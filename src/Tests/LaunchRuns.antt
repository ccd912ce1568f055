-- ===== src/Tests/LaunchRuns.antt =====
-- Start over a table of two rows, with two listeners of which one is disabled.
use bridge_core.Prelude.{◌≡◌, refl, String, some, List, [], ◌∷◌, ◌++◌, arith, All}
use bridge_core.Types.{Listener}
use bridge_core.Controller.Launch.{Launched, start, start_lem}
use bridge_core.Controller.Pending.Delivery.{valid_jobs}
use bridge_core.Controller.Startup.Waiting.{WasUpToDate, starts_of, listens_of, enabled}
use bridge_core.Tests.Samples.{quiet_listener}
use bridge_core.Tests.PendingRuns.{Desk, working, working-Works, desk}
use bridge_core.Tests.StartupRuns.{disabled_listener, third, listeners-Settles}

abbrev table : List (String × Listener)
table = ("Ronin", quiet_listener) ∷ []

-- The orders of the loops of startListeners.
abbrev orders : List Listener
orders = disabled_listener ∷ quiet_listener ∷ []

start_lem_example :
    (s : Launched Desk) × (start working table third 100 3 5 orders orders desk ≡ some s)
    × (s.world.rows ≡ [])
    × (s.world.given ≡ [] ++ valid_jobs (λ r. r.id) desk.rows)
    × All (WasUpToDate third 0 s.pauses) orders
    × (starts_of s.actions ≡ enabled orders)
    × (listens_of s.actions ≡ enabled orders)
start_lem_example =
    start_lem working table third 100 working-Works 3 5 orders orders desk
      ((quiet_listener, refl, refl), ((quiet_listener, refl, refl), tt)) (omega arith)
      (λ e. ground (arith, e)) listeners-Settles

abbrev only_disabled : List (String × Listener)
only_disabled = ("Ronin", disabled_listener) ∷ []
