-- ===== src/Pool/System.antt =====
-- The whole pool as a transition system: a schedule is a list of events, each naming the goroutine
-- that moves and what its environment answers. An event that is not enabled has no successor.
use bridge_core.Prelude.{ℕ, ◌+◌, ◌≡◌, Bool, true, Option, some, List, [], ◌∷◌}
use bridge_core.Types.{JobHandler}
use bridge_core.Pool.State.{Pool}
use bridge_core.Pool.Ops.{enqueue}
use bridge_core.Pool.Workers.{Verdict, start_worker}
use bridge_core.Pool.Retry.{Wake, prepare_retryable_job}
use bridge_core.Pool.Main.{Choice, main_step}

pub data Event (J : Type 0) : Type 0 where
  passes : ℕ → Event J  -- seconds go by
  cancels : Event J  -- the context of the pool is cancelled
  enqueues : Bool → Option J → Event J  -- a call of Enqueue from outside
  main_moves : Choice → Bool → Event J
  worker_moves : Verdict → Bool → ℕ → Event J
  retrier_moves : Wake → Bool → ℕ → Event J

module _ {J : Type 0} (h : JobHandler J) where
  unfoldable pub step : Event J → Pool J → Option (Pool J)
  unfolding enqueue main_step start_worker prepare_retryable_job
  step (passes n) p = some (record p { now = p.now + n })
  step cancels p = some (record p { cancelled = true })
  step (enqueues saved job) p = enqueue saved job p
  step (main_moves c saved) p = main_step c saved p p.main
  step (worker_moves v saved i) p = start_worker h v saved i p
  step (retrier_moves wake saved i) p = prepare_retryable_job h wake saved i p

  -- A schedule that runs from the first pool to the second.
  pub data Run (p : Pool J) : List (Event J) → Pool J → Type 0 where
    here : Run p [] p
    next :
        {q r : Pool J} {e : Event J} {es : List (Event J)}
        → Run p es q
        → step e q ≡ some r
        → Run p (e ∷ es) r
