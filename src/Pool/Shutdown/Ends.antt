-- ===== src/Pool/Shutdown/Ends.antt =====
-- The end of the shutdown, from the pool that NewWithContext sets up.
use bridge_core.Pool.Invariant.Phases.{stage}
use bridge_core.Pool.Shutdown.Progress.{Settling, main_goes, Enabled}
use bridge_core.Pool.Shutdown.Work.{IsOwn, work}
use bridge_core.Pool.Shutdown.Halts.{halted-cases, Run-Progressed, Run-Settling}
use bridge_core.Pool.Safety.Start.{fresh_pool, set_up-AtRest}
use bridge_core.Pool.State.{Pool, Config, halted}
use bridge_core.Pool.Shutdown.Calm.{IsCalmEvent, IsCalm}
use bridge_core.Pool.Invariant.FirstTokens.{fresh-Tokens}
use bridge_core.Types.{JobHandler}
use bridge_core.Prelude.{ℕ, ◌+◌, inl, All, List, zero, suc, length, arith, ◌≡◌, refl, inr, ◌≤◌, ◌⊎◌}
use bridge_core.Pool.Setup.{new_workers, with_defaults}
use bridge_core.Pool.System.{Event, Run}

module _ (J : Type 0) where
  new_workers-IsCalm : (n from size : ℕ) → 1 ≤ size → All IsCalm (new_workers {J = J} n from size)
  unfolding new_workers
  new_workers-IsCalm zero from size room = tt
  new_workers-IsCalm (suc n) from size room =
      ((refl, room), new_workers-IsCalm n (from + 1) size room)

room_of : (cfg : Config) → 1 ≤ (with_defaults cfg).max_queue_size
unfolding with_defaults
room_of cfg = ground arith

module _ {J : Type 0} (now : ℕ) (cfg : Config) where
  pub fresh-Settling :
      Settling
        (with_defaults cfg).number_of_workers
        (with_defaults cfg).max_queue_size
        (fresh_pool J now cfg)
  fresh-Settling =
      let rest = set_up-AtRest J now cfg in
      record {
        phases = rest.1.phases;
        tokens = fresh-Tokens now cfg;
        sizes = (rest.2, refl);
        calm = record {
          all_calm =
              new_workers-IsCalm J (with_defaults cfg).number_of_workers 0
                (with_defaults cfg).max_queue_size (room_of cfg);
          no_retry = refl;
          no_failure = refl;
          no_retrier = refl;
          none_counted = refl;
          no_failed_row = refl;
          none_dropped = refl;
          none_crashed = refl;
          waits_closed = λ i at. ground (arith, at);
        };
      }

module _ {J : Type 0} (h : JobHandler J) (now : ℕ) (cfg : Config) {q : Pool J} {es : List (Event J)}
    (fits : (with_defaults cfg).number_of_workers ≤ (with_defaults cfg).max_queue_size)
    (calm : All IsCalmEvent es) (run : Run h (fresh_pool J now cfg) es q)
    (late : 1 ≤ stage q.main) where
  reached : Settling (with_defaults cfg).number_of_workers (with_defaults cfg).max_queue_size q
  reached = Run-Settling h _ _ calm run (fresh-Settling now cfg)

  some_worker : 1 ≤ (with_defaults cfg).number_of_workers
  some_worker = (set_up-AtRest J now cfg).3

  -- Whatever order they move in: in that pool the main loop and the workers whose jobs succeed make at
  -- most `work q` steps, and after any of their schedules Start has returned or one of them can make
  -- a step.
  pub shutdown-bounded :
      {fs : List (Event J)} {r : Pool J}
      → All IsOwn fs
      → Run h q fs r
      → (length fs ≤ work q) × ((r.main ≡ halted) ⊎ Enabled h r)
  shutdown-bounded {r = r} own more =
      let after = Run-Progressed h _ _ reached late own more in
      (
        omega (arith, after.used),
        elim (halted-cases r.main) [
          | inl over ↦ inl over
          | inr runs ↦
              inr (main_goes h r _ _ after.settling some_worker fits r.main refl after.late runs)
        ],
      )
