-- ===== src/Utils/Sign.antt =====
-- NewSignMethod of utils/sign.go and signTypedData of utils/main.go.
use bridge_core.Prelude.Map.{string_eq}
pub mod Typed
use bridge_core.Prelude.{
  ℕ, ◌+◌, ◌%◌, ◌^◌, String, Option, none, some, List, [], ◌∷◌, ◌++◌, get_elem?, set, if◌then◌else◌,
}
use bridge_core.Prelude.Outcome.{Outcome, returns, panics}
use bridge_core.Utils.Transactor.{SignMethod}

-- kms.KmsConfig, which the source only passes on, is a number.
pub record SignMethodConfig : Type 0 where
  pub plain_private_key : String
  pub kms_config : Option ℕ

-- A client of the KMS.
pub record KmsClient : Type 0 where
  pub client_sign : List ℕ → String → Option (List ℕ)
  pub client_address : ℕ

-- crypto: keys from hexadecimals, their signatures and addresses, and the hash; and the client of
-- the KMS that a configuration gives.
pub record KeyLib (K : Type 0) : Type 0 where
  pub hex_to_ecdsa : String → Option K
  pub keccak256 : List ℕ → List ℕ
  pub crypto_sign : List ℕ → K → Option (List ℕ)
  pub pubkey_to_address : K → ℕ
  pub connect_kms : ℕ → Option KmsClient

-- What NewSignMethod returns: an error, which comes with an interface that is not to be used, a nil
-- interface, or a method.
pub data NewSign : Type 0 where
  new_failed no_method : NewSign
  new_method : SignMethod → NewSign

abbrev pub or_failed : Option SignMethod → NewSign
or_failed none = new_failed
or_failed (some method) = new_method method

module _ {K : Type 0} (lib : KeyLib K) where
  open lib use {hex_to_ecdsa, keccak256, crypto_sign, pubkey_to_address, connect_kms}

  -- PrivateKeySign with its Sign, which leaves its data type aside, and its GetAddress.
  abbrev pub private_key_sign : K → SignMethod
  private_key_sign private_key = record {
    sign = λ message data_type. crypto_sign (keccak256 message) private_key;
    get_address = pubkey_to_address private_key;
  }

  unfoldable pub new_private_key_sign : String → Option SignMethod
  new_private_key_sign plain_private_key = elim (hex_to_ecdsa plain_private_key) [
    | none ↦ none
    | some private_key ↦ some (private_key_sign private_key)
  ]

  -- KmsSign, whose Sign hands on what the client answers; Kms has the metrics that it pushes.
  unfoldable pub new_kms_sign : ℕ → Option SignMethod
  new_kms_sign kms_config = elim (connect_kms kms_config) [
    | none ↦ none
    | some client ↦ some (record { sign = client.client_sign; get_address = client.client_address })
  ]

  unfoldable pub new_sign_method : SignMethodConfig → NewSign
  unfolding new_private_key_sign new_kms_sign
  new_sign_method config =
      if string_eq.beq config.plain_private_key ""
      then (elim (config.kms_config) [
        | none ↦ no_method
        | some kms_config ↦ or_failed (new_kms_sign kms_config)
      ])
      else or_failed (new_private_key_sign config.plain_private_key)

-- core.TypedData: HashStruct of its domain and of its message.
pub record TypedData : Type 0 where
  pub hash_domain : Option (List ℕ)
  pub hash_message : Option (List ℕ)

-- `signature[64] += 27`, on bytes
abbrev pub transform_v : List ℕ → Outcome (Option (List ℕ))
transform_v signature = elim (get_elem? signature 64) [
  | none ↦ panics
  | some v ↦ returns (some (set signature 64 ((v + 27) % 2 ^ 8)))
]

abbrev pub raw_data : List ℕ → List ℕ → List ℕ
raw_data domain_separator typed_data_hash = 25 ∷ 1 ∷ domain_separator ++ typed_data_hash

-- A sign method that is nil makes the call panic; `none` is an error.
abbrev pub sign_raw : Option SignMethod → List ℕ → Outcome (Option (List ℕ))
sign_raw none raw = panics
sign_raw (some method) raw = elim (method.sign raw "non-ether") [
  | none ↦ returns none
  | some signature ↦ transform_v signature
]

unfoldable pub sign_typed_data : TypedData → Option SignMethod → Outcome (Option (List ℕ))
sign_typed_data typed_data method = elim (typed_data.hash_domain) [
  | none ↦ returns none
  | some domain_separator ↦ elim (typed_data.hash_message) [
    | none ↦ returns none
    | some typed_data_hash ↦ sign_raw method (raw_data domain_separator typed_data_hash)
  ]
]
