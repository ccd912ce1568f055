-- ===== src/Pool/Workers.antt =====
-- startWorker: one step of the worker at an index.
use bridge_core.Prelude.{
  ℕ, ◌+◌, ◌*◌, Bool, Option, none, some, ◌∷◌, get_elem?, set, ltb, if◌then◌else◌,
}
use bridge_core.Types.{JobHandler}
use bridge_core.Pool.Channel.{
  sent, full, send_on_closed, send, received, no_more, nothing_yet, receive,
}
use bridge_core.Pool.State.{
  WorkerPc, registering, receiving, processing, failing, retrying, stopped, exited, Worker, Pool,
}
use bridge_core.Pool.Ops.{retry_job}

-- What `w.ProcessJob(job)` does.
pub data Verdict : Type 0 where
  succeeds fails crashes : Verdict

module _ {J : Type 0} where
  abbrev pub set_worker : Pool J → ℕ → Worker J → Pool J
  set_worker p i w = record p { workers = set p.workers i w }

  abbrev pub goto : Pool J → ℕ → Worker J → WorkerPc J → Pool J
  goto p i w pc = set_worker p i (record w { pc = pc })

  abbrev pub complete : J → Pool J → Pool J
  complete job p = record p { ledger = record (p.ledger) { completed = job ∷ p.ledger.completed } }

  abbrev pub crash : J → Pool J → Pool J
  crash job p = record p { ledger = record (p.ledger) { crashed = job ∷ p.ledger.crashed } }

  -- `p.Queue <- w.Channel()`
  unfoldable pub register : Pool J → ℕ → Worker J → Option (Pool J)
  register p i w = elim (send i p.queue) [
    | sent queue ↦ some (goto (record p { queue = queue }) i w receiving)
    | full ↦ none
    | send_on_closed ↦ some (goto p i w exited)
  ]

  -- `job, more := <-w.Channel()`
  unfoldable pub take_job : Pool J → ℕ → Worker J → Option (Pool J)
  take_job p i w = elim (receive w.worker_chan) [
    | received job ch ↦ some (set_worker p i (record w { worker_chan = ch; pc = processing job }))
    | no_more ↦ some (goto p i w stopped)
    | nothing_yet ↦ none
  ]

  -- `p.FailedJobChan <- job`
  unfoldable pub send_failed : Pool J → ℕ → Worker J → J → Option (Pool J)
  send_failed p i w job = elim (send job p.failed_job_chan) [
    | sent ch ↦ some (goto (record p { failed_job_chan = ch }) i w registering)
    | full ↦ none
    | send_on_closed ↦ some (crash job (goto p i w exited))
  ]

  -- `p.RetryJob(job)`
  unfoldable pub send_retry : Bool → Pool J → ℕ → Worker J → J → Option (Pool J)
  unfolding retry_job
  send_retry saved p i w job = retry_job saved (some job) (goto p i w registering)

module _ {J : Type 0} (h : JobHandler J) where
  open h use {get_retry_count, get_max_try, get_back_off, increase_retry_count, update_next_try}

  -- The job with one more try counted and the time of the next one.
  unfoldable pub next_attempt : ℕ → J → J
  next_attempt now job =
      let job' = increase_retry_count job in
      update_next_try (now + get_retry_count job' * get_back_off job') job'

  -- After an error of ProcessJob: give the job up, or prepare its next try.
  unfoldable pub after_failure : ℕ → J → WorkerPc J
  unfolding next_attempt
  after_failure now job =
      if ltb (get_max_try job) (get_retry_count job + 1)
      then failing job
      else retrying (next_attempt now job)

  unfoldable pub finish : Verdict → Pool J → ℕ → Worker J → J → Pool J
  unfolding after_failure
  finish succeeds p i w job = complete job (goto p i w registering)
  finish fails p i w job = goto p i w (after_failure p.now job)
  finish crashes p i w job = crash job (goto p i w exited)

  unfoldable pub worker_step : Verdict → Bool → Pool J → ℕ → Worker J → WorkerPc J → Option (Pool J)
  unfolding register take_job send_failed send_retry finish
  worker_step v saved p i w registering = register p i w
  worker_step v saved p i w receiving = take_job p i w
  worker_step v saved p i w (processing job) = some (finish v p i w job)
  worker_step v saved p i w (failing job) = send_failed p i w job
  worker_step v saved p i w (retrying job) = send_retry saved p i w job
  worker_step v saved p i w stopped = none
  worker_step v saved p i w exited = none

  unfoldable pub start_worker : Verdict → Bool → ℕ → Pool J → Option (Pool J)
  unfolding worker_step
  start_worker v saved i p = elim (get_elem? p.workers i) [
    | none ↦ none
    | some w ↦ worker_step v saved p i w w.pc
  ]
