-- ===== src/Pool/Invariant/FirstTokens.antt =====
-- The tokens in the queue, counted worker by worker, and those of a pool that was just set up.
use bridge_core.Pool.Safety.Start.{fresh_pool}
use bridge_core.Pool.Invariant.Tokens.{Tokens, count, due}
use bridge_core.Pool.Setup.{new_workers, with_defaults}
use bridge_core.Pool.State.{Worker, Config, registering}
use bridge_core.Prelude.{
  ℕ, List, [], ◌+◌, ltb, some, ◌<◌, zero, get_elem?, arith, ◌≡◌, suc, ◌≤◌, All, All-get_elem?, ◌∷◌,
  false, refl, length, if◌then◌else◌,
}

-- The entries below a number, each counted.
unfoldable pub counts : ℕ → List ℕ → ℕ
counts zero xs = 0
counts (suc n) xs = count n xs + counts n xs

counts-nil : (n : ℕ) → counts n [] ≡ 0
unfolding counts
counts-nil zero = refl
counts-nil (suc n) = omega (arith, counts-nil n)

pub counts-cons :
    (n x : ℕ) (xs : List ℕ) → counts n (x ∷ xs) ≡ (if ltb x n then 1 else 0) + counts n xs
unfolding counts
counts-cons zero x xs = ground arith
counts-cons (suc n) x xs = ground (arith, counts-cons n x xs)

pub counts-le-length : (n : ℕ) (xs : List ℕ) → counts n xs ≤ length xs
counts-le-length n [] = omega (arith, counts-nil n)
counts-le-length n (x ∷ xs) = ground (arith, counts-cons n x xs, counts-le-length n xs)

pub le-counts : (n : ℕ) (xs : List ℕ) → ((j : ℕ) → j < n → 1 ≤ count j xs) → n ≤ counts n xs
unfolding counts
le-counts zero xs each = omega arith
le-counts (suc n) xs each =
    let rest = le-counts n xs (λ j below. each j (omega (arith, below))) in
    omega (arith, rest, each n (omega arith))

module _ {J : Type 0} where
  -- A worker as NewWorker makes it.
  abbrev IsNew : Worker J → Type 0
  IsNew k = (k.pc ≡ registering) × (k.worker_chan.closed ≡ false) × (k.worker_chan.items ≡ [])

module _ (J : Type 0) where
  new_workers-IsNew : (n from size : ℕ) → All IsNew (new_workers {J = J} n from size)
  unfolding new_workers
  new_workers-IsNew zero from size = tt
  new_workers-IsNew (suc n) from size = ((refl, refl, refl), new_workers-IsNew n (from + 1) size)

module _ {J : Type 0} where
  pub fresh-Tokens : (now : ℕ) (cfg : Config) → Tokens (fresh_pool J now cfg)
  fresh-Tokens now cfg = record {
    token = λ j k at.
        let new = is_new j k at in
        let none_waits : length k.worker_chan.items ≡ 0 = rw (new.2) refl in
        let free : due k.pc ≡ 0 = rw (new.0) refl in omega (arith, none_waits, free);
    strange = λ j beyond. refl;
    still_open = λ j k at s. (is_new j k at).1;
    within = omega arith;
  }
    where
      c : Config
      c = with_defaults cfg

      is_new :
          (j : ℕ) (k : Worker J) → get_elem? (fresh_pool J now cfg).workers j ≡ some k → IsNew k
      is_new j k at =
          All-get_elem? IsNew (fresh_pool J now cfg).workers j k
            (new_workers-IsNew J c.number_of_workers 0 c.max_queue_size) at
