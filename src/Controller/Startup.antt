-- ===== src/Controller/Startup.antt =====
-- startListeners, closeListeners and LoadAbi of controller.go. The loops over the map of listeners
-- come in an order each.
pub mod Waiting
use bridge_core.Prelude.{
  ℕ, suc, zero, ◌+◌, String, Bool, Option, none, some, List, [], ◌∷◌, if◌then◌else◌, ◌∷◌,
}
use bridge_core.Prelude.Map.{lookup, insert, string_eq}
use bridge_core.Types.{Listener}

-- `go listener.Start()`, `go c.startListening(listener, 0)` and `listener.Close()`.
pub data Action : Type 0 where
  started listens closed : Listener → Action

unfoldable pub start_all : List Listener → List Action
start_all [] = []
start_all (l ∷ ls) =
    let rest = start_all ls in if l.is_disabled then rest else started l ∷ listens l ∷ rest

-- Whether a listener is up to date, after a number of pauses of ten seconds.
module _ (is_up_to_date : ℕ → Listener → Bool) where
  -- The pauses made when the listener is up to date; `none` where the fuel ends first.
  unfoldable pub await : ℕ → ℕ → Listener → Option ℕ
  await zero pauses l = none
  await (suc fuel) pauses l =
      let later = await fuel (suc pauses) l in if is_up_to_date pauses l then some pauses else later

  unfoldable pub await_all : ℕ → ℕ → List Listener → Option ℕ
  unfolding await
  await_all fuel pauses [] = some pauses
  await_all fuel pauses (l ∷ ls) =
      if l.is_disabled
      then await_all fuel pauses ls
      else elim (await fuel pauses l) [ none ↦ none | some n ↦ await_all fuel n ls ]

  -- The loop that waits and the loop that starts, over the listeners in an order each.
  unfoldable pub start_listeners : ℕ → ℕ → List Listener → List Listener → Option (ℕ × List Action)
  unfolding await_all start_all
  start_listeners fuel pauses ls again = elim (await_all fuel pauses ls) [
    | none ↦ none
    | some n ↦ some (n, start_all again)
  ]

unfoldable pub close_listeners : List Listener → List Action
close_listeners [] = []
close_listeners (l ∷ ls) = closed l ∷ close_listeners ls

-- LoadAbi of the controller: HandlerABIs afterwards, and the ABI, unless the file has none.
unfoldable pub load_abi :
    {A : Type 0} → (String → Option A) → String → List (String × A) → List (String × A) × Option A
load_abi read path abis = elim (lookup path abis) [
  | some a ↦ (abis, some a)
  | none ↦ elim (read path) [ none ↦ (abis, none) | some a ↦ (insert path a abis, some a) ]
]
