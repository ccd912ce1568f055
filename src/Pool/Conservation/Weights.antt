-- ===== src/Pool/Conservation/Weights.antt =====
-- The weight of everything that the pool holds, for a weight of jobs that the pool's own updates
-- (retry count and next try) leave alone.
use bridge_core.Prelude.{ℕ, ◌+◌, ◌≡◌, Option, none, some, weigh}
use bridge_core.Types.{JobHandler}
use bridge_core.Pool.State.{
  WorkerPc, processing, failing, retrying, Worker, Retrier, ready, timing, requeueing, MainPc,
  dispatching, sending, Ledger, Pool,
}
use bridge_core.Pool.System.{Event, enqueues}

-- The pool's updates of a job do not change its weight.
pub record IsStable {J : Type 0} (h : JobHandler J) (w : J → ℕ) : Type 0 where
  pub keeps-increase : (j : J) → w (h.increase_retry_count j) ≡ w j
  pub keeps-update : (t : ℕ) (j : J) → w (h.update_next_try t j) ≡ w j

module _ {J : Type 0} (w : J → ℕ) where
  abbrev pub weigh_pc : WorkerPc J → ℕ
  weigh_pc (processing job) = w job
  weigh_pc (failing job) = w job
  weigh_pc (retrying job) = w job
  weigh_pc _ = 0

  abbrev pub weigh_worker : Worker J → ℕ
  weigh_worker k = weigh w k.worker_chan.items + weigh_pc k.pc

  abbrev pub weigh_retrier : Retrier J → ℕ
  weigh_retrier (ready job) = w job
  weigh_retrier (timing job) = w job
  weigh_retrier (requeueing job) = w job

  abbrev pub weigh_main : MainPc J → ℕ
  weigh_main (dispatching last job) = w job
  weigh_main (sending last i job) = w job
  weigh_main _ = 0

  abbrev pub weigh_option : Option J → ℕ
  weigh_option none = 0
  weigh_option (some job) = w job

  -- The jobs in the channels and in the hands of the goroutines.
  abbrev pub held : Pool J → ℕ
  held p =
      weigh w p.job_chan.items
      + weigh w p.retry_job_chan.items
      + weigh w p.failed_job_chan.items
      + weigh weigh_worker p.workers
      + weigh weigh_retrier p.retriers
      + weigh_main p.main

  -- The jobs that have left it.
  abbrev pub settled : Ledger J → ℕ
  settled l =
      weigh w l.completed
      + weigh w l.pending_rows
      + weigh w l.failed_rows
      + weigh w l.unsaved
      + weigh w l.dropped
      + weigh w l.crashed

  abbrev pub total : Pool J → ℕ
  total p = held p + settled p.ledger

  -- What an event brings in.
  abbrev pub gained : Event J → ℕ
  gained (enqueues saved job) = weigh_option job
  gained _ = 0
