-- ===== src/Controller/Setup/Kinds.antt =====
-- The map of the kinds of subscription that a listener has.
use bridge_core.Prelude.Map.{insert, nat_eq, lookup-insert}
use bridge_core.Types.{Subscribe}
use bridge_core.Controller.Behind.Blocks.{has_subscription_type}
use bridge_core.Controller.Setup.{subscription_types, is_set, [], false, insert}
use bridge_core.Prelude.{
  ℕ, ◌≡◌, List, Bool, ◌||◌, refl, ◌∙◌, ◌∷◌, String, [], arith, Bool-cases, ap, inl, inr, ◌==◌, true,
  if◌then◌else◌, ==_iff, subst,
}

or_false : (b : Bool) → (b || false) ≡ b
or_false b = ground arith

or_swap : (a b c : Bool) → (a || (b || c)) ≡ ((b || a) || c)
or_swap a b c = ground arith

added :
    (t k : ℕ) (m : List (ℕ × Bool))
    → is_set t (if is_set k m then m else insert k true m) ≡ (k == t) || is_set t m
added t k m = elim (Bool-cases (is_set k m)) [
  | inl old ↦ elim (Bool-cases (k == t)) [
    | inl same ↦
        let equal : k ≡ t = ground (arith, ==_iff k t) in
        let set : is_set t m ≡ true = subst (λ x. is_set x m ≡ true) equal old in
        ground (arith, old, same, set)
    | inr other ↦ ground (arith, old, other)
  ]
  | inr new ↦ ground (arith, new, lookup-insert k t true m)
]

subscription_types-from :
    (t : ℕ) (subs : List (String × Subscribe)) (m : List (ℕ × Bool))
    → is_set t (subscription_types subs m) ≡ has_subscription_type t subs || is_set t m
unfolding subscription_types has_subscription_type
subscription_types-from t [] m = refl
subscription_types-from t ((name, s) ∷ rest) m =
    subscription_types-from t rest (if is_set s.type_of m then m else insert s.type_of true m)
    ∙ ap (λ b. has_subscription_type t rest || b) (added t s.type_of m)
    ∙ or_swap (has_subscription_type t rest) (s.type_of == t) (is_set t m)

-- The map that NewWithContext fills for a listener answers, for every kind of subscription, whether the
-- listener has one of that kind.
pub subscription_types_lem :
    (t : ℕ) (subs : List (String × Subscribe))
    → is_set t (subscription_types subs []) ≡ has_subscription_type t subs
subscription_types_lem t subs = subscription_types-from t subs [] ∙ or_false _
