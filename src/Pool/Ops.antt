-- ===== src/Pool/Ops.antt =====
-- Enqueue, RetryJob, SendJobToWorker, saveJob and processFailedJob. `none` means that the call
-- blocks in this state. The flag `saved` is the answer of the database, if the call asks it.
use bridge_core.Prelude.{ℕ, Bool, Option, none, some, ◌∷◌, get_elem?, set, if◌then◌else◌}
use bridge_core.Pool.Channel.{Chan, sent, full, send_on_closed, send}
use bridge_core.Pool.State.{Worker, Pool}

module _ {J : Type 0} where
  unfoldable pub save_job : Bool → J → Pool J → Pool J
  save_job saved job p = record p {
    ledger =
        if saved
        then record (p.ledger) { pending_rows = job ∷ p.ledger.pending_rows }
        else record (p.ledger) { unsaved = job ∷ p.ledger.unsaved };
  }

  unfoldable pub process_failed_job : Bool → J → Pool J → Pool J
  process_failed_job saved job p = record p {
    ledger =
        if saved
        then record (p.ledger) { failed_rows = job ∷ p.ledger.failed_rows }
        else record (p.ledger) { unsaved = job ∷ p.ledger.unsaved };
  }

  -- A send whose panic on a closed channel is recovered by saving the job (closedChannelRecover).
  abbrev pub send_or_save : Bool → J → Pool J → (Chan J → Pool J) → Chan J → Option (Pool J)
  send_or_save saved job p store ch = elim (send job ch) [
    | sent ch' ↦ some (store ch')
    | full ↦ none
    | send_on_closed ↦ some (save_job saved job p)
  ]

  -- Enqueue; a nil handler is ignored. The wait for a full JobChan is the blocked send.
  unfoldable pub enqueue : Bool → Option J → Pool J → Option (Pool J)
  unfolding save_job
  enqueue saved none p = some p
  enqueue saved (some job) p =
      send_or_save saved job p (λ ch. record p { job_chan = ch }) p.job_chan

  unfoldable pub retry_job : Bool → Option J → Pool J → Option (Pool J)
  unfolding save_job
  retry_job saved none p = some p
  retry_job saved (some job) p =
      send_or_save saved job p (λ ch. record p { retry_job_chan = ch }) p.retry_job_chan

  abbrev put_chan : Pool J → ℕ → Worker J → Chan J → Pool J
  put_chan p i w ch = record p { workers = set p.workers i (record w { worker_chan = ch }) }

  -- SendJobToWorker, with the worker's channel named by the worker's place in the list.
  unfoldable pub send_job_to_worker : Bool → ℕ → J → Pool J → Option (Pool J)
  unfolding save_job
  send_job_to_worker saved i job p = elim (get_elem? p.workers i) [
    | none ↦ none
    | some w ↦ send_or_save saved job p (put_chan p i w) w.worker_chan
  ]
