-- ===== src/Pool/Retry.antt =====
-- PrepareRetryableJob: one step of the goroutine at an index. A goroutine that returns leaves the
-- list; `Done` and the decrement of numberOfRetryingJob are deferred only after the two early
-- returns.
use bridge_core.Prelude.{
  ℕ, ◌-◌, Bool, Option, none, some, ◌∷◌, get_elem?, set, erase_at, leb, if◌then◌else◌,
}
use bridge_core.Types.{JobHandler}
use bridge_core.Pool.State.{Retrier, ready, timing, requeueing, Pool}
use bridge_core.Pool.Ops.{save_job, enqueue}

-- Which case of its `select` a waiting goroutine takes.
pub data Wake : Type 0 where
  timer_fires context_done : Wake

module _ {J : Type 0} where
  abbrev pub set_retrier : Pool J → ℕ → Retrier J → Pool J
  set_retrier p i r = record p { retriers = set p.retriers i r }

  -- The goroutine returns.
  abbrev pub leave : ℕ → Pool J → Pool J
  leave i p = record p { retriers = erase_at p.retriers i }

  -- It returns through the deferred function.
  abbrev pub leave_done : ℕ → Pool J → Pool J
  leave_done i p = record p {
    retriers = erase_at p.retriers i;
    wait_group = p.wait_group - 1;
    number_of_retrying_job = p.number_of_retrying_job - 1;
  }

  abbrev drop_job : J → Pool J → Pool J
  drop_job job p = record p { ledger = record (p.ledger) { dropped = job ∷ p.ledger.dropped } }

  -- `p.Enqueue(job)`, and then the deferred function.
  unfoldable pub requeue : Bool → Pool J → ℕ → J → Option (Pool J)
  unfolding enqueue
  requeue saved p i job = enqueue saved (some job) (leave_done i p)

module _ {J : Type 0} (h : JobHandler J) where
  open h use {get_next_try}

  unfoldable pub begin : Bool → Pool J → ℕ → J → Pool J
  unfolding save_job
  begin saved p i job =
      if p.is_closed
      then leave i (save_job saved job p)
      else (if leb (get_next_try job) p.now
          then leave i (drop_job job p)
          else set_retrier p i (timing job))

  unfoldable pub wait_for_try : Wake → Bool → Pool J → ℕ → J → Option (Pool J)
  unfolding save_job
  wait_for_try timer_fires saved p i job =
      if leb (get_next_try job) p.now then some (set_retrier p i (requeueing job)) else none
  wait_for_try context_done saved p i job =
      if p.cancelled then some (leave_done i (save_job saved job p)) else none

  unfoldable pub retrier_step : Wake → Bool → Pool J → ℕ → Retrier J → Option (Pool J)
  unfolding begin wait_for_try requeue
  retrier_step wake saved p i (ready job) = some (begin saved p i job)
  retrier_step wake saved p i (timing job) = wait_for_try wake saved p i job
  retrier_step wake saved p i (requeueing job) = requeue saved p i job

  unfoldable pub prepare_retryable_job : Wake → Bool → ℕ → Pool J → Option (Pool J)
  unfolding retrier_step
  prepare_retryable_job wake saved i p = elim (get_elem? p.retriers i) [
    | none ↦ none
    | some r ↦ retrier_step wake saved p i r
  ]
