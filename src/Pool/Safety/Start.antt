-- ===== src/Pool/Safety/Start.antt =====
-- The pool that NewWithContext sets up.
use bridge_core.Prelude.{ℕ, zero, suc, ◌+◌, ◌<◌, ◌≡◌, refl, List, All, length, weigh, some, arith}
use bridge_core.Prelude.Outcome.{returns}
use bridge_core.Pool.State.{Config, Worker, Pool}
use bridge_core.Pool.Setup.{nonempty, with_defaults, new_workers, set_up, bare_pool}
use bridge_core.Pool.Conservation.Weights.{total, weigh_worker}
use bridge_core.Pool.Invariant.Counts.{Surplus}
use bridge_core.Pool.Invariant.Phases.{IsDrained, Phases}

module _ {J : Type 0} where
  bare_pool-Phases :
      (now : ℕ) (cfg : Config) (ks : List (Worker J))
      → All IsDrained ks
      → Phases (bare_pool now cfg ks)
  bare_pool-Phases now cfg ks d = ground arith

  -- A pool at rest: no shutdown has begun, no retry waits and no job is held or settled.
  pub record AtRest (p : Pool J) : Type 0 where
    pub phases : Phases p
    pub surplus : Surplus 0 p
    pub no_jobs : (w : J → ℕ) → total w p ≡ 0

module _ (J : Type 0) where
  length-new_workers : (n from size : ℕ) → length (new_workers {J = J} n from size) ≡ n
  unfolding new_workers
  length-new_workers zero from size = refl
  length-new_workers (suc n) from size = omega (arith, length-new_workers n (from + 1) size)

  new_workers-IsDrained : (n from size : ℕ) → All IsDrained (new_workers {J = J} n from size)
  unfolding new_workers
  new_workers-IsDrained zero from size = tt
  new_workers-IsDrained (suc n) from size = (λ e. cc, new_workers-IsDrained n (from + 1) size)

  weigh-new_workers :
      (w : J → ℕ) (n from size : ℕ) → weigh (weigh_worker w) (new_workers n from size) ≡ 0
  unfolding new_workers
  weigh-new_workers w zero from size = refl
  weigh-new_workers w (suc n) from size = omega (arith, weigh-new_workers w n (from + 1) size)

  new_workers-nonempty :
      (n from size : ℕ)
      → 0 < n
      → nonempty (new_workers {J = J} n from size) ≡ some (new_workers n from size)
  unfolding new_workers
  new_workers-nonempty zero from size h = absurd (omega arith)
  new_workers-nonempty (suc n) from size h = refl

  abbrev pub fresh_pool : ℕ → Config → Pool J
  fresh_pool now cfg =
      let c = with_defaults cfg in
      bare_pool now c (new_workers c.number_of_workers 0 c.max_queue_size)

  -- Whatever the configuration, setting up the pool does not panic: it yields a pool at rest with
  -- the workers and the positive sizes that the configuration, with its defaults, asks for.
  pub set_up-AtRest :
      (now : ℕ) (cfg : Config)
      → (set_up {J = J} now cfg ≡ returns (fresh_pool now cfg))
        × AtRest (fresh_pool now cfg)
        × (length (fresh_pool now cfg).workers ≡ (with_defaults cfg).number_of_workers)
        × (0 < (with_defaults cfg).number_of_workers)
        × (0 < (fresh_pool now cfg).job_chan.cap)
  unfolding set_up
  set_up-AtRest now cfg = (
    ground (
      arith,
      length-new_workers c.number_of_workers 0 c.max_queue_size,
      new_workers-nonempty c.number_of_workers 0 c.max_queue_size positive,
    ),
    record {
      phases =
          bare_pool-Phases now c _ (new_workers-IsDrained c.number_of_workers 0 c.max_queue_size);
      surplus = omega arith;
      no_jobs = λ w. omega (arith, weigh-new_workers w c.number_of_workers 0 c.max_queue_size);
    },
    length-new_workers c.number_of_workers 0 c.max_queue_size,
    positive,
    grind (arith, positive, room),
  )
    where
      c : Config
      c = with_defaults cfg

      positive : 0 < c.number_of_workers
      positive = ground arith

      room : 0 < c.max_queue_size
      room = ground arith
