-- ===== src/Metrics/Registered.antt =====
-- Which counters exist after any calls of a pusher.
use bridge_core.Prelude.{
  ◌≡◌, ◌∙◌, ap, subst, String, Bool, true, false, ◌||◌, ◌&&◌, not, Option, none, some, List, [],
  ◌∷◌, arith, Option-cases, Bool-cases, inl, inr,
}
use bridge_core.Prelude.Int.{ℤ, pos, negsuc}
use bridge_core.Prelude.Outcome.{Outcome, returns, panics, ◌>>=◌, >>=-eq-returns}
use bridge_core.Prelude.Map.{string_eq, lookup, lookup-insert}
use bridge_core.Metrics.Pusher.{
  adds, Pusher, new_pusher, add_counter, add_counter_with_label, add_gauge, add_gauge_with_label,
  add_histogram, add_histogram_with_labels, incr_counter, incr_gauge, set_gauge, observe_histogram,
}

-- A call of a pusher.
pub data Use : Type 0 where
  uses_add_counter uses_add_gauge uses_add_histogram : String → String → Use
  uses_add_counter_with_label uses_add_gauge_with_label uses_add_histogram_with_labels :
      String → String → Option (List (String × String)) → Use
  uses_incr_counter uses_incr_gauge uses_set_gauge uses_observe_histogram : String → ℤ → Use

abbrev pub or_same : Pusher → Option Pusher → Pusher
or_same p none = p
or_same p (some q) = q

unfoldable pub perform : Use → Pusher → Outcome Pusher
unfolding add_counter add_counter_with_label add_gauge add_gauge_with_label add_histogram
    add_histogram_with_labels incr_counter incr_gauge set_gauge observe_histogram
perform (uses_add_counter n d) p = returns (add_counter n d p)
perform (uses_add_gauge n d) p = returns (add_gauge n d p)
perform (uses_add_histogram n d) p = returns (add_histogram n d p)
perform (uses_add_counter_with_label n d ls) p = add_counter_with_label n d ls p
perform (uses_add_gauge_with_label n d ls) p = add_gauge_with_label n d ls p
perform (uses_add_histogram_with_labels n d ls) p = add_histogram_with_labels n d ls p
perform (uses_incr_counter n v) p = incr_counter n v p >>= λ o. returns (or_same p o)
perform (uses_incr_gauge n v) p = returns (or_same p (incr_gauge n v p))
perform (uses_set_gauge n v) p = returns (or_same p (set_gauge n v p))
perform (uses_observe_histogram n v) p = returns (or_same p (observe_histogram n v p))

unfoldable pub perform_all : List Use → Pusher → Outcome Pusher
unfolding perform
perform_all [] p = returns p
perform_all (u ∷ us) p = perform u p >>= perform_all us

abbrev pub is_some : {A : Type 0} → Option A → Bool
is_some none = false
is_some (some a) = true

abbrev pub adds_to : String → Use → Bool
adds_to name (uses_add_counter n d) = string_eq.beq n name
adds_to name (uses_add_counter_with_label n d ls) = string_eq.beq n name
adds_to name _ = false

abbrev pub added : String → List Use → Bool
added name [] = false
added name (u ∷ us) = adds_to name u || added name us

abbrev has : String → Pusher → Bool
has name p = is_some (lookup name p.counters)

incremented-has :
    (name n : String) (v : ℤ) (p q : Pusher)
    → (incr_counter n v p >>= λ o. returns (or_same p o)) ≡ returns q
    → has name q ≡ has name p
unfolding incr_counter
incremented-has name n (negsuc k) p q e = elim (Option-cases (lookup n p.counters)) [
  | inl missing ↦ ground (arith, missing, e)
  | inr (calls, there) ↦ ground (arith, there, e)
]
incremented-has name n (pos k) p q e = elim (Option-cases (lookup n p.counters)) [
  | inl missing ↦ ground (arith, missing, e)
  | inr (calls, there) ↦ elim (Bool-cases (string_eq.beq n name)) [
    | inl same ↦
        let equal : n ≡ name = (string_eq.beq_iff n name).0 same in
        let found : lookup name p.counters ≡ some calls =
          subst (λ m. lookup m p.counters ≡ some calls) equal there in
        ground
          (arith, e, there, found, same, lookup-insert n name (adds (pos k) ∷ calls) p.counters)
    | inr other ↦
        ground (arith, e, there, other, lookup-insert n name (adds (pos k) ∷ calls) p.counters)
  ]
]

perform-has :
    (name : String) (u : Use) (p q : Pusher)
    → perform u p ≡ returns q
    → has name q ≡ adds_to name u || has name p
unfolding perform add_counter add_counter_with_label add_gauge add_gauge_with_label add_histogram
    add_histogram_with_labels incr_gauge set_gauge observe_histogram
perform-has name (uses_add_counter n d) p q e =
    ground (arith, e, lookup-insert n name [] p.counters, string_eq.beq_iff n name)
perform-has name (uses_add_counter_with_label n d ls) p q e =
    ground (arith, e, lookup-insert n name [] p.counters, string_eq.beq_iff n name)
perform-has name (uses_add_gauge n d) p q e = ground (arith, e)
perform-has name (uses_add_gauge_with_label n d ls) p q e = ground (arith, e)
perform-has name (uses_add_histogram n d) p q e = ground (arith, e)
perform-has name (uses_add_histogram_with_labels n d ls) p q e = ground (arith, e)
perform-has name (uses_incr_counter n v) p q e = incremented-has name n v p q e
perform-has name (uses_incr_gauge n v) p q e = ground (arith, e)
perform-has name (uses_set_gauge n v) p q e = ground (arith, e)
perform-has name (uses_observe_histogram n v) p q e = ground (arith, e)

or_assoc : (a b c : Bool) → (b || (a || c)) ≡ ((a || b) || c)
or_assoc a b c = ground arith

perform_all-has :
    (name : String) (us : List Use) (p q : Pusher)
    → perform_all us p ≡ returns q
    → has name q ≡ added name us || has name p
unfolding perform_all
perform_all-has name [] p q e = ground (arith, e)
perform_all-has name (u ∷ us) p q e =
    let (r, first, rest) = >>=-eq-returns (perform u p) (perform_all us) e in
    perform_all-has name us r q rest
    ∙ ap (λ b. added name us || b) (perform-has name u p r first)
    ∙ or_assoc (adds_to name u) (added name us) (has name p)

or_false : (b : Bool) → (b || false) ≡ b
or_false b = ground arith

-- IncrCounter returns its error, and IncrCounter panics.
abbrev pub is_error : Outcome (Option Pusher) → Bool
is_error (returns none) = true
is_error _ = false

abbrev pub is_panic : Outcome (Option Pusher) → Bool
is_panic panics = true
is_panic _ = false

abbrev pub is_negative : ℤ → Bool
is_negative (pos n) = false
is_negative (negsuc n) = true

answers :
    (name : String) (value : ℤ) (p : Pusher)
    → (is_error (incr_counter name value p) ≡ not (has name p))
      × (is_panic (incr_counter name value p) ≡ has name p && is_negative value)
unfolding incr_counter
answers name (pos n) p = ground arith
answers name (negsuc n) p = ground arith

-- After any calls of a new pusher that return, IncrCounter returns its error exactly on the names that
-- neither AddCounter nor AddCounterWithLable was called with, and on the others it panics exactly
-- for a value below zero.
pub incr_counter-added :
    (name instance_name : String) (value : ℤ) (us : List Use) {p : Pusher}
    → perform_all us (new_pusher instance_name) ≡ returns p
    → (is_error (incr_counter name value p) ≡ not (added name us))
      × (is_panic (incr_counter name value p) ≡ added name us && is_negative value)
incr_counter-added name instance_name value us {p} ran =
    let known : has name p ≡ added name us =
      perform_all-has name us (new_pusher instance_name) p ran ∙ or_false (added name us) in
    let (error, panic) = answers name value p in
    (error ∙ ap not known, panic ∙ ap (λ b. b && is_negative value) known)
