-- ===== src/Utils/Transactor.antt =====
-- SendContractTransaction and its transactor. The contract call `fn` acts on a world and does not
-- write to its options.
use bridge_core.Prelude.{
  ℕ, zero, suc, ◌+◌, ◌*◌, ◌/◌, ◌%◌, ◌^◌, ◌≤◌, ◌<◌, ◌≡◌, refl, String, Bool, true, false, Option,
  none, some, List, ◌∷◌, ◌==◌, if◌then◌else◌, ◌⊎◌, inl, inr, arith, Option-cases, Bool-cases,
  ==_iff,
}

pub data Answer {ℓ} (A : Type ℓ) : Type ℓ where
  ok : A → Answer A
  no_sign_method not_authorized failed : Answer A

-- An ISign.
pub record SignMethod : Type 0 where
  pub sign : List ℕ → String → Option (List ℕ)
  pub get_address : ℕ

-- kmsUtils.RlpEncode, WithSignature with the latest signer of the chain, and Gas.
pub record TxLib (T : Type 0) : Type 0 where
  pub rlp_encode : T → ℕ → Option (List ℕ)
  pub with_signature : ℕ → T → List ℕ → Option T
  pub gas_of : T → ℕ

pub record TransactOpts (T : Type 0) : Type 0 where
  pub from : ℕ
  pub signer : ℕ → T → Answer T
  pub no_send : Bool
  pub gas_limit : ℕ

times_up : (g r : ℕ) → 100 ≤ r → g * 100 ≤ g * r
times_up zero r h = omega arith
times_up (suc g) r h = let rest = times_up g r h in grind arith

hundredth :
    (g p : ℕ)
    → g * 100 ≤ p
    → p < 2 ^ 64
    → (g ≤ p % 2 ^ 64 / 100) × (p % 2 ^ 64 / 100 * 100 ≤ p) × (p < p % 2 ^ 64 / 100 * 100 + 100)
hundredth g p more fits = (omega arith, omega arith, omega arith)

module _ {T : Type 0} (lib : TxLib T) where
  abbrev pub answered : {A : Type 0} → Option A → Answer A
  answered none = failed
  answered (some a) = ok a

  abbrev pub signed : SignMethod → ℕ → T → Option (List ℕ) → Answer T
  signed method chain_id tx none = failed
  signed method chain_id tx (some raw) = elim (method.sign raw "non-ether") [
    | none ↦ failed
    | some signature ↦ answered (lib.with_signature chain_id tx signature)
  ]

  unfoldable pub sign_with : SignMethod → ℕ → ℕ → T → Answer T
  sign_with method chain_id address tx =
      if address == method.get_address
      then signed method chain_id tx (lib.rlp_encode tx chain_id)
      else not_authorized

  abbrev pub options : SignMethod → ℕ → TransactOpts T
  options method chain_id = record {
    from = method.get_address;
    signer = sign_with method chain_id;
    no_send = false;
    gas_limit = 0;
  }

  unfoldable pub new_keyed_transactor : Option SignMethod → ℕ → Answer (TransactOpts T)
  new_keyed_transactor none chain_id = no_sign_method
  new_keyed_transactor (some method) chain_id = ok (options method chain_id)

  -- `tx.Gas() * gasLimitBumpRatio / Percentage`, on uint64
  unfoldable pub bumped : ℕ → ℕ → ℕ
  bumped gas ratio = gas * ratio % 2 ^ 64 / 100

  module _ {W : Type 0} (fn : TransactOpts T → W → W × Answer T) where
    abbrev pub dry_run : TransactOpts T → TransactOpts T
    dry_run opts = record opts { no_send = true }

    abbrev pub wet_run : TransactOpts T → ℕ → T → TransactOpts T
    wet_run opts ratio tx = record opts {
      no_send = false;
      gas_limit = bumped (lib.gas_of tx) ratio;
    }

    abbrev pub after_estimate : TransactOpts T → ℕ → W × Answer T → W × Answer T
    after_estimate opts ratio (w, ok tx) = fn (wet_run opts ratio tx) w
    after_estimate opts ratio (w, e) = (w, e)

    abbrev pub after_opts : ℕ → W → Answer (TransactOpts T) → W × Answer T
    after_opts ratio w (ok opts) = after_estimate opts ratio (fn (dry_run opts) w)
    after_opts ratio w no_sign_method = (w, no_sign_method)
    after_opts ratio w not_authorized = (w, not_authorized)
    after_opts ratio w failed = (w, failed)

    unfoldable pub send_contract_transaction : Option SignMethod → ℕ → ℕ → W → W × Answer T
    unfolding new_keyed_transactor
    send_contract_transaction method chain_id ratio w =
        after_opts ratio w (new_keyed_transactor method chain_id)

    -- A call sends nothing, or one transaction with a gas limit: its own, unless that is 0, for which
    -- the binding estimates one.
    abbrev pub SendsOnce : (W → List ℕ) → TransactOpts T → W → Type 0
    SendsOnce sent opts w =
        (sent (fn opts w).0 ≡ sent w)
        ⊎ ((gas : ℕ) × ((opts.gas_limit ≡ 0) ⊎ (gas ≡ opts.gas_limit))
            × (sent (fn opts w).0 ≡ gas ∷ sent w))

  -- A bump ratio of at least 100 with a product that fits 64 bits: the limit is not below the gas, and
  -- is the ratio's share of it rounded down.
  pub bumped-bounds :
      (gas ratio : ℕ)
      → 100 ≤ ratio
      → gas * ratio < 2 ^ 64
      → (gas ≤ bumped gas ratio)
        × (bumped gas ratio * 100 ≤ gas * ratio)
        × (gas * ratio < bumped gas ratio * 100 + 100)
  unfolding bumped
  bumped-bounds gas ratio enough fits =
      let more = times_up gas ratio enough in hundredth gas (gas * ratio) more fits

  signed-parts :
      (method : SignMethod) (chain_id : ℕ) (tx tx' : T) (coded : Option (List ℕ))
      → lib.rlp_encode tx chain_id ≡ coded
      → signed method chain_id tx coded ≡ ok tx'
      → (raw : List ℕ) × (signature : List ℕ) × (lib.rlp_encode tx chain_id ≡ some raw)
        × (method.sign raw "non-ether" ≡ some signature)
        × (lib.with_signature chain_id tx signature ≡ some tx')
  signed-parts method chain_id tx tx' none coded e = ground arith
  signed-parts method chain_id tx tx' (some raw) coded e =
      elim (Option-cases (method.sign raw "non-ether")) [
        | inl refused ↦ ground (arith, refused, e)
        | inr (signature, made) ↦ elim (Option-cases (lib.with_signature chain_id tx signature)) [
          | inl refused ↦ ground (arith, made, refused, e)
          | inr (t, with_it) ↦ (raw, signature, coded, made, ground (arith, made, with_it, e))
        ]
      ]

  -- A signer signs for its own address only, and what it returns carries the signature that its method
  -- made, for the data type "non-ether", of the transaction's encoding for the chain.
  pub sign_with-own :
      (method : SignMethod) (chain_id address : ℕ) (tx tx' : T)
      → sign_with method chain_id address tx ≡ ok tx'
      → (address ≡ method.get_address)
        × (raw : List ℕ) × (signature : List ℕ) × (lib.rlp_encode tx chain_id ≡ some raw)
        × (method.sign raw "non-ether" ≡ some signature)
        × (lib.with_signature chain_id tx signature ≡ some tx')
  unfolding sign_with
  sign_with-own method chain_id address tx tx' e =
      elim (Bool-cases (address == method.get_address)) [
        | inl own ↦
            let (raw, signature, coded, made, with_it) =
              signed-parts method chain_id tx tx' (lib.rlp_encode tx chain_id) refl
                (ground (arith, own, e)) in
            (
              omega (arith, (==_iff address method.get_address).0 own),
              raw,
              signature,
              coded,
              made,
              with_it,
            )
        | inr other ↦ ground (arith, other, e)
      ]
