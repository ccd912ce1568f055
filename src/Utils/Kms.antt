-- ===== src/Utils/Kms.antt =====
-- KmsSign.Sign of utils/sign.go: the metrics that it pushes around a call of the KMS client.
use bridge_core.Prelude.{
  ℕ, ◌+◌, ◌-◌, ◌<◌, ◌≡◌, refl, String, List, [], ◌∷◌, ltb, if◌then◌else◌, arith, All,
}
use bridge_core.Prelude.Int.{ℤ, pos, negsuc}

pub data Metric : Type 0 where
  incr_counter : String → ℕ → Metric
  observe_histogram : String → ℤ → Metric
  set_gauge : String → ℕ → Metric

-- What the client answers: a signature, ErrAccessDenied, or another error.
pub data KmsAnswer : Type 0 where
  signature : List ℕ → KmsAnswer
  access_denied other_error : KmsAnswer

-- The difference of two int64 times after 1970.
abbrev pub minus : ℕ → ℕ → ℤ
minus a b = if ltb a b then negsuc (b - a - 1) else pos (a - b)

-- The clock is read before the call, and after a success again, in milliseconds and in seconds.
unfoldable pub kms_sign : ℕ → KmsAnswer → ℕ → ℕ → KmsAnswer × List Metric
kms_sign start (signature s) stop seconds = (
  signature s,
  observe_histogram "kms_latency" (minus start stop)
      ∷ set_gauge "kms_lastSuccess" seconds
      ∷ incr_counter "kms_success" 1
      ∷ [],
)
kms_sign start access_denied stop seconds =
    (access_denied, incr_counter "kms_failure_internal" 1 ∷ [])
kms_sign start other_error stop seconds = (other_error, incr_counter "kms_failure_network" 1 ∷ [])

abbrev pub latencies : List Metric → List ℤ
latencies [] = []
latencies (observe_histogram name z ∷ ms) = z ∷ latencies ms
latencies (_ ∷ ms) = latencies ms

abbrev pub counted : List Metric → ℕ
counted [] = 0
counted (incr_counter name n ∷ ms) = n + counted ms
counted (_ ∷ ms) = counted ms

abbrev pub IsNegative : ℤ → Type 0
IsNegative z = (n : ℕ) × (z ≡ negsuc n)

minus-negative : (a b : ℕ) → a < b → minus a b ≡ negsuc (b - a - 1)
minus-negative a b h = ground arith

-- A call that takes at least a millisecond hands on the client's answer and counts exactly one of
-- success, internal failure and network failure; but every latency that it observes is below zero.
pub kms_sign_lem :
    (start stop seconds : ℕ) (a : KmsAnswer)
    → start < stop
    → ((kms_sign start a stop seconds).0 ≡ a)
      × (counted (kms_sign start a stop seconds).1 ≡ 1)
      × All IsNegative (latencies (kms_sign start a stop seconds).1)
unfolding kms_sign
kms_sign_lem start stop seconds (signature s) took =
    (refl, refl, ((stop - start - 1, minus-negative start stop took), tt))
kms_sign_lem start stop seconds access_denied took = (refl, refl, tt)
kms_sign_lem start stop seconds other_error took = (refl, refl, tt)
