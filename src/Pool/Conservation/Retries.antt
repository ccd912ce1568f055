-- ===== src/Pool/Conservation/Retries.antt =====
-- Each step of a goroutine of PrepareRetryableJob keeps the total weight.
use bridge_core.Prelude.{
  ℕ, ◌+◌, ◌≡◌, refl, Bool, some, [], ◌∷◌, get_elem?, set, erase_at, weigh, weigh-append, weigh-set,
  weigh-erase_at, arith, inl, inr, Option-cases,
}
use bridge_core.Types.{JobHandler}
use bridge_core.Pool.State.{Retrier, ready, timing, requeueing, Pool}
use bridge_core.Pool.Retry.{
  Wake, timer_fires, context_done, begin, wait_for_try, requeue, retrier_step,
  prepare_retryable_job,
}
use bridge_core.Pool.Conservation.Weights.{weigh_retrier, total}

-- A step of the goroutine `r` at index `i`.
module _ {J : Type 0} (w : J → ℕ) (p q : Pool J) (i : ℕ) (r : Retrier J)
    (at : get_elem? p.retriers i ≡ some r) where
  abbrev swap :
      (r' : Retrier J)
      → weigh (weigh_retrier w) (set p.retriers i r') + weigh_retrier w r
        ≡ weigh (weigh_retrier w) p.retriers + weigh_retrier w r'
  swap r' = weigh-set (weigh_retrier w) p.retriers i r r' at

  abbrev remove :
      weigh (weigh_retrier w) (erase_at p.retriers i) + weigh_retrier w r
      ≡ weigh (weigh_retrier w) p.retriers
  remove = weigh-erase_at (weigh_retrier w) p.retriers i r at

  total-begin :
      (h : JobHandler J) (saved : Bool) (job : J)
      → r ≡ ready job
      → some (begin h saved p i job) ≡ some q
      → total w q ≡ total w p
  unfolding begin
  total-begin h saved job has e = ground (arith, swap (timing job), remove)

  total-wait_for_try :
      (h : JobHandler J) (wake : Wake) (saved : Bool) (job : J)
      → r ≡ timing job
      → wait_for_try h wake saved p i job ≡ some q
      → total w q ≡ total w p
  unfolding wait_for_try
  total-wait_for_try h timer_fires saved job has e = ground (arith, swap (requeueing job))
  total-wait_for_try h context_done saved job has e = ground (arith, remove)

  total-requeue :
      (saved : Bool) (job : J)
      → r ≡ requeueing job
      → requeue saved p i job ≡ some q
      → total w q ≡ total w p
  unfolding requeue
  total-requeue saved job has e = ground (arith, remove, weigh-append w p.job_chan.items (job ∷ []))

  total-retrier_step :
      (h : JobHandler J) (wake : Wake) (saved : Bool) (r' : Retrier J)
      → r ≡ r'
      → retrier_step h wake saved p i r' ≡ some q
      → total w q ≡ total w p
  unfolding retrier_step
  total-retrier_step h wake saved (ready job) has e = total-begin h saved job has e
  total-retrier_step h wake saved (timing job) has e = total-wait_for_try h wake saved job has e
  total-retrier_step h wake saved (requeueing job) has e = total-requeue saved job has e

module _ {J : Type 0} (w : J → ℕ) (p q : Pool J) (i : ℕ) where
  pub total-prepare_retryable_job :
      (h : JobHandler J) (wake : Wake) (saved : Bool)
      → prepare_retryable_job h wake saved i p ≡ some q
      → total w q ≡ total w p
  unfolding prepare_retryable_job
  total-prepare_retryable_job h wake saved e = elim (Option-cases (get_elem? p.retriers i)) [
    | inl gone ↦ ground (arith, gone)
    | inr (r, at) ↦
        total-retrier_step w p q i r at h wake saved r refl (rw (at, prepare_retryable_job) at e)
  ]
