-- ===== src/Pool/Shutdown/Room.antt =====
-- A worker that has to register finds room in the queue, since each other worker has one token there
-- at most.
use bridge_core.Pool.Invariant.FirstTokens.{counts-cons, counts}
use bridge_core.Pool.Invariant.Tokens.{Tokens, count, due}
use bridge_core.Pool.State.{WorkerPc, Pool, Worker, registering}
use bridge_core.Prelude.{
  ℕ, List, zero, inr, ◌==◌, arith, ==_iff, refl, Bool-cases, get_elem?, ◌∷◌, ltb, suc, length,
  get_elem?-below, ◌≤◌, ◌≡◌, get_elem?-some, inl, some, ◌<◌, if◌then◌else◌, [],
}

module _ (xs : List ℕ) where
  length-le-counts : (n : ℕ) → ((j : ℕ) → n ≤ j → count j xs ≡ 0) → length xs ≤ counts n xs
  length-le-counts n beyond = within xs beyond
    where
      within : (ys : List ℕ) → ((j : ℕ) → n ≤ j → count j ys ≡ 0) → length ys ≤ counts n ys
      within [] far = omega arith
      within (y ∷ ys) far =
          let rest = within ys (λ j above. let here = far j above in omega (arith, here)) in
          elim (Bool-cases (ltb y n)) [
            | inl below ↦
                let one : ◌≡◌ {A = ℕ} (if ltb y n then 1 else 0) 1 = rw below refl in
                omega (arith, rest, counts-cons n y ys, one)
            | inr above ↦
                let here = far y (ground (arith, above)) in
                let self : ◌≡◌ {A = ℕ} (if y == y then 1 else 0) 1 = ground (arith, ==_iff y y) in
                absurd (omega (arith, here, self))
          ]

  counts-le : (n : ℕ) → ((j : ℕ) → j < n → count j xs ≤ 1) → counts n xs ≤ n
  unfolding counts
  counts-le zero each = omega arith
  counts-le (suc n) each =
      let rest = counts-le n (λ j below. each j (omega (arith, below))) in
      omega (arith, rest, each n (omega arith))

  counts-lt :
      (n i : ℕ) → ((j : ℕ) → j < n → count j xs ≤ 1) → i < n → count i xs ≡ 0 → counts n xs < n
  unfolding counts
  counts-lt zero i each below none_here = absurd (omega (arith, below))
  counts-lt (suc n) i each below none_here = elim (Bool-cases (i == n)) [
    | inl last ↦
        let is : count n xs ≡ 0 = ground (arith, last, none_here) in
        omega (arith, is, counts-le n (λ j less. each j (omega (arith, less))))
    | inr earlier ↦
        let less : i < n = ground (arith, earlier, below) in
        omega (
          arith,
          each n (omega arith),
          counts-lt n i (λ j less. each j (omega (arith, less))) less none_here,
        )
  ]

pub due-le : {J : Type 0} (pc : WorkerPc J) → due pc ≤ 1
due-le pc = ground arith

module _ {J : Type 0} (p : Pool J) (t : Tokens p) where
  at_most_one : (j : ℕ) → j < length p.workers → count j p.queue.items ≤ 1
  at_most_one j below =
      let (k, at) = get_elem?-some p.workers j below in omega (arith, t.token j k at, due-le k.pc)

  pub room_for :
      (i : ℕ) (k : Worker J)
      → get_elem? p.workers i ≡ some k
      → k.pc ≡ registering
      → length p.queue.items < length p.workers
  room_for i k at now =
      let free : due k.pc ≡ 0 = rw now refl in
      let none_here : count i p.queue.items ≡ 0 = omega (arith, t.token i k at, free) in
      let spread =
        counts-lt p.queue.items (length p.workers) i at_most_one (get_elem?-below p.workers i k at)
          none_here in
      let all =
        length-le-counts p.queue.items (length p.workers)
          (λ j beyond. omega (arith, t.strange j beyond)) in
      omega (arith, spread, all)
