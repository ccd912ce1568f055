-- ===== src/Pool/State.antt =====
-- The pool with its goroutines: `Start` (the main loop), one `startWorker` for each worker, and one
-- `PrepareRetryableJob` for each job that waits for its next try. A handler in a channel is never
-- nil, since every sender returns before the send when it is. The ledger records where jobs end.
use bridge_core.Prelude.{ℕ, Bool, List}
use bridge_core.Pool.Channel.{Chan}

pub record Config : Type 0 where
  pub number_of_workers : ℕ
  pub max_queue_size : ℕ
  pub max_retry : ℕ
  pub back_off : ℕ

-- Where the loop of startWorker stands.
pub data WorkerPc (J : Type 0) : Type 0 where
  registering : WorkerPc J  -- before `p.Queue <- w.Channel()`
  receiving : WorkerPc J  -- before `<-w.Channel()`
  processing : J → WorkerPc J  -- in `w.ProcessJob(job)`
  failing : J → WorkerPc J  -- before `p.FailedJobChan <- job`
  retrying : J → WorkerPc J  -- in `p.RetryJob(job)`
  stopped : WorkerPc J  -- after `w.Stop()`, which closes stopCh
  exited : WorkerPc J  -- left by the deferred recover, with stopCh open

pub record Worker (J : Type 0) : Type 0 where
  pub id : ℕ
  pub worker_chan : Chan J
  pub pc : WorkerPc J

-- Where a goroutine of PrepareRetryableJob stands.
pub data Retrier (J : Type 0) : Type 0 where
  ready : J → Retrier J  -- at its start
  timing : J → Retrier J  -- in its `select`
  requeueing : J → Retrier J  -- in `p.Enqueue(job)` after the timer

-- Where the loop of Start stands. The flag tells the drain after the close from the normal loop.
pub data MainPc (J : Type 0) : Type 0 where
  selecting : MainPc J
  dispatching : Bool → J → MainPc J  -- before `workerCh := <-p.Queue`
  sending : Bool → ℕ → J → MainPc J  -- in `p.SendJobToWorker(workerCh, job)`
  closing : MainPc J  -- in closeFunc
  draining : MainPc J  -- receiving from the closed JobChan
  closing_worker : ℕ → MainPc J  -- before `worker.Close()` of the worker at this index
  waiting_worker : ℕ → MainPc J  -- in `worker.Wait()`
  closing_channels : MainPc J
  saving_retries : MainPc J
  saving_failures : MainPc J
  waiting_retries : MainPc J  -- in `p.retryableWaitGroup.Wait()`
  halted : MainPc J  -- after `close(p.stop)`

-- Jobs that left the pool: processed, written to the database as pending or as failed, lost by a
-- failed write, dropped by PrepareRetryableJob, lost in a worker that panicked.
pub record Ledger (J : Type 0) : Type 0 where
  pub completed : List J
  pub pending_rows : List J
  pub failed_rows : List J
  pub unsaved : List J
  pub dropped : List J
  pub crashed : List J

pub record Pool (J : Type 0) : Type 0 where
  pub config : Config
  pub job_chan : Chan J
  pub retry_job_chan : Chan J
  pub failed_job_chan : Chan J
  pub queue : Chan ℕ
  pub workers : List (Worker J)
  pub retriers : List (Retrier J)
  pub number_of_retrying_job : ℕ
  pub wait_group : ℕ
  pub is_closed : Bool
  pub main : MainPc J
  pub now : ℕ
  pub cancelled : Bool  -- p.ctx is done
  pub ledger : Ledger J
