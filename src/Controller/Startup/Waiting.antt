-- ===== src/Controller/Startup/Waiting.antt =====
-- No listener is started before all have been up to date.
use bridge_core.Prelude.{
  ℕ, suc, zero, ◌+◌, ◌≤◌, ◌<◌, ◌≡◌, ◌⊎◌, inl, inr, refl, Bool, true, some, List, [], ◌∷◌,
  if◌then◌else◌, All, arith, Bool-cases, leb,
}
use bridge_core.Types.{Listener}
use bridge_core.Controller.Startup.{
  Action, started, listens, await, await_all, start_all, start_listeners,
}

abbrev pub enabled : List Listener → List Listener
enabled [] = []
enabled (l ∷ ls) = let rest = enabled ls in if l.is_disabled then rest else l ∷ rest

-- The listeners that are started, and those that startListening is called on.
abbrev pub starts_of : List Action → List Listener
starts_of [] = []
starts_of (started l ∷ acts) = l ∷ starts_of acts
starts_of (_ ∷ acts) = starts_of acts

abbrev pub listens_of : List Action → List Listener
listens_of [] = []
listens_of (listens l ∷ acts) = l ∷ listens_of acts
listens_of (_ ∷ acts) = listens_of acts

starts_of-start_all : (ls : List Listener) → starts_of (start_all ls) ≡ enabled ls
unfolding start_all
starts_of-start_all [] = refl
starts_of-start_all (l ∷ ls) = let rest = starts_of-start_all ls in ground (arith, rest)

listens_of-start_all : (ls : List Listener) → listens_of (start_all ls) ≡ enabled ls
unfolding start_all
listens_of-start_all [] = refl
listens_of-start_all (l ∷ ls) = let rest = listens_of-start_all ls in ground (arith, rest)

module _ (is_up_to_date : ℕ → Listener → Bool) where
  -- The listener is disabled, or up to date from a number of pauses below the fuel on.
  abbrev pub Settles : ℕ → Listener → Type 0
  Settles fuel l =
      (l.is_disabled ≡ true)
      ⊎ ((lag : ℕ) × (lag < fuel) × ((n : ℕ) → lag ≤ n → is_up_to_date n l ≡ true))

  -- The listener is disabled, or was up to date between two numbers of pauses.
  abbrev pub WasUpToDate : ℕ → ℕ → Listener → Type 0
  WasUpToDate a b l =
      (l.is_disabled ≡ true) ⊎ ((n : ℕ) × (a ≤ n) × (n ≤ b) × (is_up_to_date n l ≡ true))

  await_lem :
      (fuel pauses lag : ℕ) (l : Listener)
      → lag < pauses + fuel
      → 1 ≤ fuel
      → ((n : ℕ) → lag ≤ n → is_up_to_date n l ≡ true)
      → (n : ℕ) × (await is_up_to_date fuel pauses l ≡ some n)
        × (pauses ≤ n)
        × (is_up_to_date n l ≡ true)
  unfolding await
  await_lem zero pauses lag l within some_fuel settles = ground (arith, some_fuel)
  await_lem (suc fuel) pauses lag l within some_fuel settles =
      elim (Bool-cases (is_up_to_date pauses l)) [
        | inl now ↦ (pauses, ground (arith, now), omega arith, now)
        | inr later ↦ elim (Bool-cases (leb lag pauses)) [
          | inl past ↦
              let now : is_up_to_date pauses l ≡ true = settles pauses (ground (arith, past)) in
              ground (arith, later, now)
          | inr ahead ↦
              let before : pauses < lag = ground (arith, ahead) in
              let (n, found, after, there) =
                await_lem fuel (suc pauses) lag l (omega (arith, within))
                  (omega (arith, within, before)) settles in
              (n, ground (arith, later, found), omega (arith, after), there)
        ]
      ]

  earlier : (a b c : ℕ) (l : Listener) → a ≤ b → WasUpToDate b c l → WasUpToDate a c l
  earlier a b c l before (inl disabled) = inl disabled
  earlier a b c l before (inr (n, from, to, there)) =
      inr (n, omega (arith, before, from), to, there)

  WasUpToDate-earlier :
      (a b c : ℕ) (ls : List Listener) → a ≤ b → All (WasUpToDate b c) ls → All (WasUpToDate a c) ls
  WasUpToDate-earlier a b c [] before was = tt
  WasUpToDate-earlier a b c (l ∷ ls) before (here, rest) =
      (earlier a b c l before here, WasUpToDate-earlier a b c ls before rest)

  await_all_lem :
      (fuel pauses : ℕ) (ls : List Listener)
      → All (Settles fuel) ls
      → (n : ℕ) × (await_all is_up_to_date fuel pauses ls ≡ some n)
        × (pauses ≤ n)
        × All (WasUpToDate pauses n) ls
  unfolding await_all
  await_all_lem fuel pauses [] settles = (pauses, refl, omega arith, tt)
  await_all_lem fuel pauses (l ∷ ls) (inl disabled, rest) =
      let (n, found, after, was) = await_all_lem fuel pauses ls rest in
      (n, ground (arith, disabled, found), after, (inl disabled, was))
  await_all_lem fuel pauses (l ∷ ls) (inr (lag, within, from), rest) =
      elim (Bool-cases (l.is_disabled)) [
        | inl disabled ↦
            let (n, found, after, was) = await_all_lem fuel pauses ls rest in
            (n, ground (arith, disabled, found), after, (inl disabled, was))
        | inr works ↦
            let (m, found, after, there) =
              await_lem fuel pauses lag l (omega (arith, within)) (omega (arith, within)) from in
            let (n, last, later, was) = await_all_lem fuel m ls rest in
            (
              n,
              ground (arith, works, found, last),
              omega (arith, after, later),
              (inr (m, after, later, there), WasUpToDate-earlier pauses m n ls after was),
            )
      ]

  -- When every listener that is not disabled is up to date from some number of pauses on, and the fuel is above these
  -- numbers: startListeners ends its waiting, by then every listener that is not disabled has been
  -- up to date, and then it starts, and listens to, exactly the listeners that are not disabled,
  -- each once and in the order of its second loop.
  pub start_listeners_lem :
      (fuel pauses : ℕ) (ls again : List Listener)
      → All (Settles fuel) ls
      → (n : ℕ) × (acts : List Action) × (start_listeners is_up_to_date fuel pauses ls again
          ≡ some (n, acts))
        × All (WasUpToDate pauses n) ls
        × (starts_of acts ≡ enabled again)
        × (listens_of acts ≡ enabled again)
  unfolding start_listeners
  start_listeners_lem fuel pauses ls again settles =
      let (n, found, after, was) = await_all_lem fuel pauses ls settles in
      (
        n,
        start_all again,
        ground (arith, found),
        was,
        starts_of-start_all again,
        listens_of-start_all again,
      )
