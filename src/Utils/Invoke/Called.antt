-- ===== src/Utils/Invoke/Called.antt =====
-- Invoke does not go out of a method's range.
use bridge_core.Prelude.{
  ◌∙◌, ℕ, suc, ◌+◌, ◌-◌, ◌≤◌, ◌<◌, ◌≡◌, ◌⊎◌, refl, ap, inl, inr, true, Option, none, some, List, [],
  ◌∷◌, length, arith, Bool-cases, ltb, leb, ◌==◌, get_elem?-some,
}
use bridge_core.Prelude.Outcome.{Outcome, returns, ◌>>=◌}
use bridge_core.Utils.Invoke.{
  Reflected, num_in, in_at, in_type, converted, then_rest, convert_args, call_with, invoke_method,
  invoke,
}

-- The values have the types that the method asks for from an index on.
abbrev pub HasTypes : {T V R : Type 0} → Reflected T V R → ℕ → List V → Type 0
HasTypes m i [] = Unit {0}
HasTypes {T = T} m i (v ∷ vs) =
    ((t : T) × (in_type m i ≡ returns t) × (m.type_of v ≡ some t)) × HasTypes m (suc i) vs

-- What is asked of the method and of reflect: a variadic method has a parameter; a conversion between
-- convertible types succeeds, which excludes a slice that is shorter than the array asked for, and
-- its value has the type asked for; and a call with values of the method's types, in a number that
-- it takes, returns a result. Nothing is asked of other calls, which may panic.
pub record IsCallable {T V R : Type 0} (m : Reflected T V R) : Type 0 where
  pub variadic-some : m.is_variadic ≡ true → 1 ≤ length m.in_types
  pub convert-returns :
      (arg : V) (t u : T)
      → m.type_of arg ≡ some u
      → m.convertible_to u t ≡ true
      → (v : V) × (m.convert arg t ≡ returns v)
  pub type_of-convert : (arg v : V) (t : T) → m.convert arg t ≡ returns v → m.type_of v ≡ some t
  pub call-returns :
      (ins : List V)
      → HasTypes m 0 ins
      → num_in m ≤ length ins
      → (m.is_variadic ≡ true) ⊎ (length ins ≡ num_in m)
      → (r : R) × (rs : List R) × (m.call ins ≡ returns (r ∷ rs))

-- The value is the argument, converted to the type that the method asks for at the index.
pub record IsConverted {T V R : Type 0} (m : Reflected T V R) (i : ℕ) (arg v : V) : Type 0 where
  pub asked : T
  pub own : T
  pub asks : in_type m i ≡ returns asked
  pub has_type : m.type_of arg ≡ some own
  pub can : m.convertible_to own asked ≡ true
  pub result : m.convert arg asked ≡ returns v

-- The values are the arguments converted, one by one from the index on.
pub data AllConverted {T V R : Type 0} (m : Reflected T V R) : ℕ → List V → List V → Type 0 where
  no_args : (i : ℕ) → AllConverted m i [] []
  an_arg :
      (i : ℕ) (arg v : V) (args vs : List V)
      → IsConverted m i arg v
      → AllConverted m (suc i) args vs
      → AllConverted m i (arg ∷ args) (v ∷ vs)

module _ {T V R : Type 0} (m : Reflected T V R) (callable : IsCallable m) where
  in_at-returns : (i : ℕ) → i < num_in m → (t : T) × (in_at m i ≡ returns t)
  in_at-returns i below =
      let (t, there) = get_elem?-some m.in_types i below in (t, ground (arith, there))

  in_type-returns :
      (i : ℕ) → (m.is_variadic ≡ true) ⊎ (i < num_in m) → (t : T) × (in_type m i ≡ returns t)
  in_type-returns i ok = elim (Bool-cases (m.is_variadic)) [
    | inr plain ↦ elim ok [
      | inl variadic ↦ ground (arith, plain, variadic)
      | inr below ↦ let (t, there) = in_at-returns i below in (t, ground (arith, plain, there))
    ]
    | inl variadic ↦ elim (Bool-cases (leb (num_in m) (i + 1))) [
      | inl last ↦
          let (t, there) =
            in_at-returns (num_in m - 1) (omega (arith, callable.variadic-some variadic)) in
          (m.elem_type t, ground (arith, variadic, last, there))
      | inr inside ↦
          let (t, there) = in_at-returns i (ground (arith, inside)) in
          (t, ground (arith, variadic, inside, there))
    ]
  ]

  converted-returns :
      (i : ℕ) (arg : V) (t : T) (u : Option T)
      → in_type m i ≡ returns t
      → m.type_of arg ≡ u
      → (converted m arg t u ≡ returns none)
        ⊎ ((v : V) × (converted m arg t u ≡ returns (some v)) × IsConverted m i arg v)
  converted-returns i arg t none asks is_type = inl refl
  converted-returns i arg t (some u) asks is_type = elim (Bool-cases (m.convertible_to u t)) [
    | inl can ↦
        let (v, done) = callable.convert-returns arg t u is_type can in
        inr (
          v,
          ground (arith, can, done),
          record { asked = t; own = u; asks = asks; has_type = is_type; can = can; result = done },
        )
    | inr cannot ↦ inl (ground (arith, cannot))
  ]

  starts_below :
      (i : ℕ) (rest : List V)
      → (m.is_variadic ≡ true) ⊎ (i + suc (length rest) ≤ num_in m)
      → (m.is_variadic ≡ true) ⊎ (i < num_in m)
  starts_below i rest (inl variadic) = inl variadic
  starts_below i rest (inr within) = inr (omega (arith, within))

  rest_below :
      (i : ℕ) (rest : List V)
      → (m.is_variadic ≡ true) ⊎ (i + suc (length rest) ≤ num_in m)
      → (m.is_variadic ≡ true) ⊎ (suc i + length rest ≤ num_in m)
  rest_below i rest (inl variadic) = inl variadic
  rest_below i rest (inr within) = inr (omega (arith, within))

  then_rest-returns :
      (i : ℕ) (arg v : V) (args : List V) (others : Outcome (Option (List V)))
      → IsConverted m i arg v
      → (others ≡ returns none)
        ⊎ ((vs : List V) × (others ≡ returns (some vs)) × AllConverted m (suc i) args vs)
      → (then_rest m (some v) others ≡ returns none)
        ⊎ ((vs : List V) × (then_rest m (some v) others ≡ returns (some vs))
            × AllConverted m i (arg ∷ args) vs)
  then_rest-returns i arg v args others here (inl failed) = inl (rw failed refl)
  then_rest-returns i arg v args others here (inr (vs, done, rest)) =
      inr (v ∷ vs, rw done refl, an_arg i arg v args vs here rest)

  -- The rest of the arguments starts at an index.
  convert_args-returns :
      (i : ℕ) (args : List V)
      → (m.is_variadic ≡ true) ⊎ (i + length args ≤ num_in m)
      → (convert_args m i args ≡ returns none)
        ⊎ ((ins : List V) × (convert_args m i args ≡ returns (some ins))
            × AllConverted m i args ins)
  unfolding convert_args
  convert_args-returns i [] ok = inr ([], refl, no_args i)
  convert_args-returns i (arg ∷ rest) ok =
      let (t, at) = in_type-returns i (starts_below i rest ok) in
      let others = convert_args-returns (suc i) rest (rest_below i rest ok) in
      elim (converted-returns i arg t (m.type_of arg) at refl) [
        | inl failed ↦ inl (rw (at, failed) refl)
        | inr (v, done, here) ↦
            rw (at, done) (then_rest-returns i arg v rest (convert_args m (suc i) rest) here others)
      ]

  AllConverted-HasTypes : (i : ℕ) (args ins : List V) → AllConverted m i args ins → HasTypes m i ins
  AllConverted-HasTypes i _ _ (no_args _) = tt
  AllConverted-HasTypes i _ _ (an_arg _ arg v args vs here rest) = (
    (here.asked, here.asks, callable.type_of-convert arg v here.asked here.result),
    AllConverted-HasTypes (suc i) args vs rest,
  )

  length-AllConverted :
      (i : ℕ) (args ins : List V) → AllConverted m i args ins → length ins ≡ length args
  length-AllConverted i _ _ (no_args _) = refl
  length-AllConverted i _ _ (an_arg _ arg v args vs here rest) =
      omega (arith, length-AllConverted (suc i) args vs rest)

  as_many :
      (args ins : List V)
      → length ins ≡ length args
      → (m.is_variadic ≡ true) ⊎ (length args ≡ num_in m)
      → (m.is_variadic ≡ true) ⊎ (length ins ≡ num_in m)
  as_many args ins same (inl variadic) = inl variadic
  as_many args ins same (inr fits) = inr (same ∙ fits)

  call_with-returns :
      (args ins : List V)
      → AllConverted m 0 args ins
      → num_in m ≤ length args
      → (m.is_variadic ≡ true) ⊎ (length args ≡ num_in m)
      → (r : R) × (rs : List R) × (m.call ins ≡ returns (r ∷ rs))
        × (call_with m (some ins) ≡ returns (some r))
  call_with-returns args ins done enough fits =
      let same = length-AllConverted 0 args ins done in
      let (r, rs, results) =
        callable.call-returns ins (AllConverted-HasTypes 0 args ins done)
          (omega (arith, same, enough)) (as_many args ins same fits) in
      (r, rs, results, rw results refl)

  -- Arguments of a fitting number get past the checks of their number.
  passes :
      (args : List V)
      → num_in m ≤ length args
      → (m.is_variadic ≡ true) ⊎ (length args ≡ num_in m)
      → invoke_method m args ≡ (convert_args m 0 args >>= call_with m)
  unfolding invoke_method
  passes args enough (inl variadic) = ground (arith, enough, variadic)
  passes args enough (inr same) = ground (arith, same)

  fits_within :
      (args : List V)
      → (m.is_variadic ≡ true) ⊎ (length args ≡ num_in m)
      → (m.is_variadic ≡ true) ⊎ (0 + length args ≤ num_in m)
  fits_within args (inl variadic) = inl variadic
  fits_within args (inr same) = inr (omega (arith, same))

  called :
      (args : List V)
      → num_in m ≤ length args
      → (m.is_variadic ≡ true) ⊎ (length args ≡ num_in m)
      → (invoke_method m args ≡ returns none)
        ⊎ ((ins : List V) × (r : R) × (rs : List R) × (invoke_method m args ≡ returns (some r))
            × (m.call ins ≡ returns (r ∷ rs))
            × AllConverted m 0 args ins
            × (num_in m ≤ length args)
            × ((m.is_variadic ≡ true) ⊎ (length args ≡ num_in m)))
  unfolding invoke_method
  called args enough fits =
      let pass = passes args enough fits in
      elim (convert_args-returns 0 args (fits_within args fits)) [
        | inl failed ↦ inl (pass ∙ ap (λ o. o >>= call_with m) failed)
        | inr (ins, done, size) ↦
            let (r, rs, results, first) = call_with-returns args ins size enough fits in
            inr (
              ins,
              r,
              rs,
              pass ∙ ap (λ o. o >>= call_with m) done ∙ first,
              results,
              size,
              enough,
              fits,
            )
      ]

  -- For a callable method, Invoke with any arguments does not panic: it is an
  -- error, or it returns the first result of a call with the arguments, each converted to the type
  -- that the method asks for. These are no less than the method has parameters, and no more unless it
  -- is variadic.
  pub invoke_lem :
      (args : List V)
      → (invoke (some m) args ≡ returns none)
        ⊎ ((ins : List V) × (r : R) × (rs : List R) × (invoke (some m) args ≡ returns (some r))
            × (m.call ins ≡ returns (r ∷ rs))
            × AllConverted m 0 args ins
            × (num_in m ≤ length args)
            × ((m.is_variadic ≡ true) ⊎ (length args ≡ num_in m)))
  unfolding invoke invoke_method
  invoke_lem args = elim (Bool-cases (ltb (length args) (num_in m))) [
    | inl few ↦ inl (ground (arith, few))
    | inr enough ↦ elim (Bool-cases (m.is_variadic)) [
      | inl variadic ↦ called args (ground (arith, enough)) (inl variadic)
      | inr plain ↦ elim (Bool-cases (num_in m == length args)) [
        | inl same ↦ called args (ground (arith, enough)) (inr (ground (arith, same)))
        | inr other ↦ inl (ground (arith, enough, plain, other))
      ]
    ]
  ]
