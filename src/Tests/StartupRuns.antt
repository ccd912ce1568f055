-- ===== src/Tests/StartupRuns.antt =====
-- Two listeners, of which one is disabled, are started.
use bridge_core.Prelude.{
  ℕ, ◌≡◌, refl, Bool, true, some, List, [], ◌∷◌, leb, arith, inl, inr, All, String, Option,
}
use bridge_core.Types.{Listener}
use bridge_core.Controller.Startup.{
  started, listens, start_listeners, load_abi, await_all, start_all, await,
}
use bridge_core.Controller.Startup.Waiting.{Settles}
use bridge_core.Tests.Samples.{quiet_listener}

abbrev pub disabled_listener : Listener
disabled_listener = record quiet_listener { is_disabled = true }

abbrev pub listeners : List Listener
listeners = disabled_listener ∷ quiet_listener ∷ []

-- Up to date after three pauses.
abbrev pub third : ℕ → Listener → Bool
third n l = leb 3 n

startup :
    start_listeners third 5 0 listeners listeners
    ≡ some (3, started quiet_listener ∷ listens quiet_listener ∷ [])
unfolding start_listeners await_all await start_all
startup = refl

pub listeners-Settles : All (Settles third 5) listeners
listeners-Settles = (inl refl, (inr (3, omega arith, λ n from. ground (arith, from)), tt))

abbrev always : ℕ → String → Option ℕ
always n path = some n

-- The second load of a path does not read its file.
loaded_twice : (load_abi (always 7) "a.json" (load_abi (always 8) "a.json" []).0).1 ≡ some 8
unfolding load_abi
loaded_twice = refl
