-- ===== src/Utils/Sign/Typed.antt =====
-- Signatures of typed data.
use bridge_core.Utils.Transactor.{SignMethod}
use bridge_core.Prelude.Outcome.{returns, panics}
use bridge_core.Prelude.{
  ℕ, zero, suc, ◌+◌, ◌%◌, ◌≤◌, ◌≡◌, ◌⊎◌, refl, ap, inl, inr, none, some, List, [], ◌∷◌, take, drop,
  length, get_elem?, set, arith, Option-cases, ◌++◌,
}
use bridge_core.Utils.Sign.{TypedData, sign_typed_data}

module _ {A : Type 0} where
  get_elem?-none : (xs : List A) (i : ℕ) → get_elem? xs i ≡ none → length xs ≤ i
  get_elem?-none [] i h = omega arith
  get_elem?-none (x ∷ xs) zero h = ground arith
  get_elem?-none (x ∷ xs) (suc i) h = omega (arith, get_elem?-none xs i h)

  -- The entry at an index replaced, and nothing else.
  set-only :
      (xs : List A) (i : ℕ) (x v : A)
      → get_elem? xs i ≡ some x
      → (get_elem? (set xs i v) i ≡ some v)
        × (take i (set xs i v) ≡ take i xs)
        × (drop (suc i) (set xs i v) ≡ drop (suc i) xs)
  set-only [] i x v h = cc
  set-only (y ∷ xs) zero x v h = (refl, refl, refl)
  set-only (y ∷ xs) (suc i) x v h =
      let (there, before, after) = set-only xs i x v h in (there, ap (◌∷◌ y) before, after)

-- When the hashes of the domain and of the message are made, and the method signs them behind the
-- bytes 0x19 and 0x01: signTypedData panics on a signature of 64 bytes or less, and else returns it
-- with 27 added to the byte at 64, modulo 256, and no other byte changed.
pub sign_typed_data_lem :
    (typed_data : TypedData) (method : SignMethod) (domain message signature : List ℕ)
    → typed_data.hash_domain ≡ some domain
    → typed_data.hash_message ≡ some message
    → method.sign (25 ∷ 1 ∷ domain ++ message) "non-ether" ≡ some signature
    → ((length signature ≤ 64) × (sign_typed_data typed_data (some method) ≡ panics))
      ⊎ ((v : ℕ) × (signature' : List ℕ) × (get_elem? signature 64 ≡ some v)
          × (sign_typed_data typed_data (some method) ≡ returns (some signature'))
          × (get_elem? signature' 64 ≡ some ((v + 27) % 256))
          × (take 64 signature' ≡ take 64 signature)
          × (drop 65 signature' ≡ drop 65 signature))
unfolding sign_typed_data
sign_typed_data_lem typed_data method domain message signature of_domain of_message made =
    elim (Option-cases (get_elem? signature 64)) [
      | inl short ↦
          inl
            (get_elem?-none signature 64 short, ground (arith, of_domain, of_message, made, short))
      | inr (v, there) ↦
          let (new, before, after) = set-only signature 64 v ((v + 27) % 256) there in
          inr (
            v,
            set signature 64 ((v + 27) % 256),
            there,
            ground (arith, of_domain, of_message, made, there),
            new,
            before,
            after,
          )
    ]
