-- ===== src/Pool/Invariant/Tokens.antt =====
-- Each registration of a worker puts one token of it into the queue, and a token leaves the queue only
-- when a job is handed to that worker: a worker that waits for a job, or stopped without one, still
-- has its token there.
use bridge_core.Prelude.{
  ◌∙◌, ℕ, zero, suc, ◌+◌, ◌≤◌, ◌<◌, ◌≡◌, ◌⊎◌, inl, inr, refl, sym, subst, false, some, List, [],
  ◌∷◌, ◌++◌, get_elem?, set, length, ◌==◌, if◌then◌else◌, arith, length-set,
}
use bridge_core.Pool.State.{
  WorkerPc, registering, receiving, processing, failing, retrying, stopped, exited, Worker, MainPc,
  sending, Pool,
}
use bridge_core.Pool.Invariant.Phases.{stage}

abbrev pub count : ℕ → List ℕ → ℕ
count i [] = 0
count i (x ∷ xs) = (if x == i then 1 else 0) + count i xs

pub count-append : (i : ℕ) (xs ys : List ℕ) → count i (xs ++ ys) ≡ count i xs + count i ys
count-append i [] ys = omega arith
count-append i (x ∷ xs) ys = omega (arith, count-append i xs ys)

pub get_elem?-set {ℓ} :
    {A : Type ℓ} (xs : List A) (i j : ℕ) (v k : A)
    → get_elem? (set xs i v) j ≡ some k
    → ((j ≡ i) × (k ≡ v)) ⊎ (((i == j) ≡ false) × (get_elem? xs j ≡ some k))
get_elem?-set [] i j v k h = cc
get_elem?-set (x ∷ xs) zero zero v k h = inl (refl, ground arith)
get_elem?-set (x ∷ xs) zero (suc j) v k h = inr (ground arith, h)
get_elem?-set (x ∷ xs) (suc i) zero v k h = inr (ground arith, h)
get_elem?-set (x ∷ xs) (suc i) (suc j) v k h = elim (get_elem?-set xs i j v k h) [
  | inl (same, is) ↦ inl (omega (arith, same), is)
  | inr (other, there) ↦ inr (ground (arith, other), there)
]

-- An index that has an entry is not one beyond the end.
pub get_elem?-beyond {ℓ} :
    {A : Type ℓ} (xs : List A) (i j : ℕ) (k : A)
    → get_elem? xs i ≡ some k
    → length xs ≤ j
    → (i == j) ≡ false
get_elem?-beyond [] i j k at far = cc
get_elem?-beyond (x ∷ xs) zero j k at far = ground (arith, far)
get_elem?-beyond (x ∷ xs) (suc i) zero k at far = absurd (omega (arith, far))
get_elem?-beyond (x ∷ xs) (suc i) (suc j) k at far =
    let rest = get_elem?-beyond xs i j k at (omega (arith, far)) in ground (arith, rest)

module _ {J : Type 0} where
  -- A worker that waits for a job, or has stopped, registered once more than it took a job.
  abbrev pub due : WorkerPc J → ℕ
  due registering = 0
  due receiving = 1
  due (processing job) = 0
  due (failing job) = 0
  due (retrying job) = 0
  due stopped = 1
  due exited = 0

  -- The token that the main loop has in its hands.
  abbrev pub main_token : MainPc J → ℕ → ℕ
  main_token (sending last i job) j = if i == j then 1 else 0
  main_token _ j = 0

  -- The token of such a worker is in the queue or in the hands of the main loop, or has become a job
  -- in the worker's channel; no other worker has one, and none names a worker that does not exist.
  pub record Tokens (p : Pool J) : Type 0 where
    pub token :
        (j : ℕ) (k : Worker J)
        → get_elem? p.workers j ≡ some k
        → count j p.queue.items + main_token p.main j + length k.worker_chan.items ≡ due k.pc
    pub strange : (j : ℕ) → length p.workers ≤ j → count j p.queue.items + main_token p.main j ≡ 0
    pub still_open :
        (j : ℕ) (k : Worker J)
        → get_elem? p.workers j ≡ some k
        → stage p.main < 3
        → k.worker_chan.closed ≡ false
    pub within : length p.queue.items ≤ p.queue.cap

  -- A step that leaves the workers and the queue alone, and neither takes a token nor gives one away.
  pub Tokens-main :
      (p q : Pool J)
      → q.workers ≡ p.workers
      → q.queue ≡ p.queue
      → ((j : ℕ) → main_token p.main j ≡ main_token q.main j)
      → (stage q.main < 3 → stage p.main < 3)
      → Tokens p
      → Tokens q
  Tokens-main p q same_workers same_queue kept early t = record {
    token = λ j k at.
        let old = t.token j k (subst (λ ks. get_elem? ks j ≡ some k) same_workers at) in
        let same = kept j in rw same_queue (omega (arith, old, same));
    strange = λ j beyond.
        let old = t.strange j (subst (λ ks. length ks ≤ j) same_workers beyond) in
        let same = kept j in rw same_queue (omega (arith, old, same));
    still_open = λ j k at s.
        t.still_open j k (subst (λ ks. get_elem? ks j ≡ some k) same_workers at) (early s);
    within = rw same_queue (t.within);
  }

  -- A step in which the worker at an index becomes another one.
  pub record Moved (p q : Pool J) (i : ℕ) (k : Worker J) : Type 0 where
    pub moved : Worker J
    pub workers_are : q.workers ≡ set p.workers i moved
    pub main_is : q.main ≡ p.main
    pub keeps_open : moved.worker_chan.closed ≡ k.worker_chan.closed
    pub others : (j : ℕ) → (i == j) ≡ false → count j q.queue.items ≡ count j p.queue.items
    pub pays :
        count i p.queue.items + length k.worker_chan.items + due moved.pc
        ≡ count i q.queue.items + length moved.worker_chan.items + due k.pc
    pub fits : length q.queue.items ≤ q.queue.cap

  pub Tokens-Moved :
      (p q : Pool J) (i : ℕ) (k : Worker J)
      → get_elem? p.workers i ≡ some k
      → Moved p q i k
      → Tokens p
      → Tokens q
  Tokens-Moved p q i k at m t = record {
    token = λ j x found.
        elim (get_elem?-set p.workers i j m.moved x
          (subst (λ ks. get_elem? ks j ≡ some x) m.workers_are found)) [
            | inl (same, is) ↦
                let old = t.token i k at in
                let paid = m.pays in rw (is, same, m.main_is) (omega (arith, old, paid))
            | inr (other, there) ↦
                let old = t.token j x there in
                let alike = m.others j other in rw (m.main_is) (omega (arith, old, alike))
          ];
    strange = λ j beyond.
        let far : length p.workers ≤ j = omega (
          arith,
          length-set p.workers i m.moved,
          subst (λ ks. length ks ≤ j) m.workers_are beyond,
        ) in
        let old = t.strange j far in
        let alike = m.others j (get_elem?-beyond p.workers i j k at far) in
        rw (m.main_is) (omega (arith, old, alike));
    still_open = λ j x found s.
        elim (get_elem?-set p.workers i j m.moved x
          (subst (λ ks. get_elem? ks j ≡ some x) m.workers_are found)) [
            | inl (same, is) ↦
                subst (λ (y : Worker J). y.worker_chan.closed ≡ false) (sym is)
                  (m.keeps_open ∙ t.still_open i k at (subst (λ y. stage y < 3) (m.main_is) s))
            | inr (other, there) ↦ t.still_open j x there (subst (λ y. stage y < 3) (m.main_is) s)
          ];
    within = m.fits;
  }

  -- A move of a worker that leaves the queue alone.
  pub Moved-alone :
      (p q : Pool J) (i : ℕ) (k k' : Worker J)
      → Tokens p
      → q.workers ≡ set p.workers i k'
      → q.main ≡ p.main
      → q.queue ≡ p.queue
      → k'.worker_chan.closed ≡ k.worker_chan.closed
      → length k.worker_chan.items + due k'.pc ≡ length k'.worker_chan.items + due k.pc
      → Moved p q i k
  Moved-alone p q i k k' t workers_are main_is queue_is keeps_open pays = record {
    moved = k';
    workers_are = workers_are;
    main_is = main_is;
    keeps_open = keeps_open;
    others = λ j other. rw queue_is refl;
    pays = rw queue_is (omega (arith, pays));
    fits = rw queue_is (t.within);
  }
