-- ===== src/Pool/Main.antt =====
-- Start: one step of the main loop. The three channels are open while the loop selects, so the nil
-- that a receive from a closed channel yields does not arise there.
use bridge_core.Prelude.{
  ℕ, suc, ◌+◌, Bool, true, false, Option, none, some, ◌∷◌, get_elem?, set, ◌==◌, if◌then◌else◌,
}
use bridge_core.Pool.Channel.{received, no_more, nothing_yet, receive, close}
use bridge_core.Pool.State.{
  WorkerPc, stopped, ready, MainPc, selecting, dispatching, sending, closing, draining,
  closing_worker, waiting_worker, closing_channels, saving_retries, saving_failures,
  waiting_retries, halted, Pool,
}
use bridge_core.Pool.Ops.{save_job, process_failed_job, send_job_to_worker}

-- The case of the `select` that is taken.
pub data Choice : Type 0 where
  failed_case retry_case job_case done_case : Choice

module _ {J : Type 0} where
  abbrev pub jump : MainPc J → Pool J → Pool J
  jump m p = record p { main = m }

  unfoldable pub take_failed : Bool → Pool J → Option (Pool J)
  unfolding process_failed_job
  take_failed saved p = elim (receive p.failed_job_chan) [
    | received job ch ↦ some (process_failed_job saved job (record p { failed_job_chan = ch }))
    | no_more ↦ none
    | nothing_yet ↦ none
  ]

  unfoldable pub take_retry : Pool J → Option (Pool J)
  take_retry p = elim (receive p.retry_job_chan) [
    | received job ch ↦ some (record p {
      retry_job_chan = ch;
      number_of_retrying_job = p.number_of_retrying_job + 1;
      wait_group = p.wait_group + 1;
      retriers = ready job ∷ p.retriers;
    })
    | no_more ↦ none
    | nothing_yet ↦ none
  ]

  unfoldable pub take_new : Pool J → Option (Pool J)
  take_new p = elim (receive p.job_chan) [
    | received job ch ↦ some (record p { job_chan = ch; main = dispatching false job })
    | no_more ↦ none
    | nothing_yet ↦ none
  ]

  unfoldable pub take_done : Pool J → Option (Pool J)
  take_done p = if p.cancelled then some (record p { is_closed = true; main = closing }) else none

  unfoldable pub select : Choice → Bool → Pool J → Option (Pool J)
  unfolding take_failed take_retry take_new take_done
  select failed_case saved p = take_failed saved p
  select retry_case saved p = take_retry p
  select job_case saved p = take_new p
  select done_case saved p = take_done p

  -- `workerCh := <-p.Queue`
  unfoldable pub dispatch : Bool → J → Pool J → Option (Pool J)
  dispatch last job p = elim (receive p.queue) [
    | received i queue ↦ some (record p { queue = queue; main = sending last i job })
    | no_more ↦ none
    | nothing_yet ↦ none
  ]

  -- The loop after a job was handed to a worker.
  abbrev pub back_to : Bool → MainPc J
  back_to last = if last then draining else selecting

  unfoldable pub hand_out : Bool → Bool → ℕ → J → Pool J → Option (Pool J)
  unfolding send_job_to_worker
  hand_out saved last i job p = send_job_to_worker saved i job (jump (back_to last) p)

  -- `close(p.JobChan)`, after closeFunc
  unfoldable pub close_jobs : Pool J → Pool J
  close_jobs p = record p { job_chan = close p.job_chan; main = draining }

  unfoldable pub drain : Pool J → Option (Pool J)
  drain p = elim (receive p.job_chan) [
    | received job ch ↦ some (record p { job_chan = ch; main = dispatching true job })
    | no_more ↦ some (jump (closing_worker 0) p)
    | nothing_yet ↦ none
  ]

  unfoldable pub close_worker : ℕ → Pool J → Pool J
  close_worker k p = elim (get_elem? p.workers k) [
    | none ↦ jump closing_channels p
    | some w ↦ record p {
      workers = set p.workers k (record w { worker_chan = close w.worker_chan });
      main = waiting_worker k;
    }
  ]

  abbrev pub is_stopped : WorkerPc J → Bool
  is_stopped stopped = true
  is_stopped _ = false

  -- `<-w.stopCh`
  unfoldable pub await_worker : ℕ → Pool J → Option (Pool J)
  await_worker k p = elim (get_elem? p.workers k) [
    | none ↦ none
    | some w ↦ if is_stopped w.pc then some (jump (closing_worker (suc k)) p) else none
  ]

  unfoldable pub close_channels : Pool J → Pool J
  close_channels p = record p {
    failed_job_chan = close p.failed_job_chan;
    retry_job_chan = close p.retry_job_chan;
    queue = close p.queue;
    main = saving_retries;
  }

  unfoldable pub save_retry : Bool → Pool J → Option (Pool J)
  unfolding save_job
  save_retry saved p = elim (receive p.retry_job_chan) [
    | received job ch ↦ some (save_job saved job (record p { retry_job_chan = ch }))
    | no_more ↦ some (jump saving_failures p)
    | nothing_yet ↦ none
  ]

  unfoldable pub save_failure : Bool → Pool J → Option (Pool J)
  unfolding process_failed_job
  save_failure saved p = elim (receive p.failed_job_chan) [
    | received job ch ↦ some (process_failed_job saved job (record p { failed_job_chan = ch }))
    | no_more ↦ some (jump waiting_retries p)
    | nothing_yet ↦ none
  ]

  unfoldable pub await_retries : Pool J → Option (Pool J)
  await_retries p = if p.wait_group == 0 then some (jump halted p) else none

  unfoldable pub main_step : Choice → Bool → Pool J → MainPc J → Option (Pool J)
  unfolding select dispatch hand_out close_jobs drain close_worker await_worker close_channels
      save_retry save_failure await_retries
  main_step c saved p selecting = select c saved p
  main_step c saved p (dispatching last job) = dispatch last job p
  main_step c saved p (sending last i job) = hand_out saved last i job p
  main_step c saved p closing = some (close_jobs p)
  main_step c saved p draining = drain p
  main_step c saved p (closing_worker k) = some (close_worker k p)
  main_step c saved p (waiting_worker k) = await_worker k p
  main_step c saved p closing_channels = some (close_channels p)
  main_step c saved p saving_retries = save_retry saved p
  main_step c saved p saving_failures = save_failure saved p
  main_step c saved p waiting_retries = await_retries p
  main_step c saved p halted = none
