-- ===== src/Pool/Conservation/Losses.antt =====
-- Which moves of the goroutines give a job up for good, and which entries of the ledger show it.
use bridge_core.Prelude.{
  ℕ, ◌+◌, ◌≡◌, Bool, true, Option, some, weigh, leb, not, ◌&&◌, get_elem?, false, List,
}
use bridge_core.Types.{JobHandler}
use bridge_core.Pool.State.{Retrier, ready, Ledger, Pool}
use bridge_core.Pool.Workers.{Verdict, crashes}
use bridge_core.Pool.System.{
  Event, passes, cancels, enqueues, main_moves, worker_moves, retrier_moves, Run, here, next,
}

module _ {J : Type 0} (w : J → ℕ) where
  -- The jobs that are processed, or written to the database.
  abbrev pub kept : Ledger J → ℕ
  kept l = weigh w l.completed + weigh w l.pending_rows + weigh w l.failed_rows

abbrev pub is_crash : Verdict → Bool
is_crash crashes = true
is_crash _ = false

module _ {J : Type 0} (h : JobHandler J) where
  -- A goroutine of PrepareRetryableJob at its start whose job is due already, in a pool that is not
  -- closed.
  abbrev pub is_overdue : Option (Retrier J) → Pool J → Bool
  is_overdue (some (ready job)) p = not p.is_closed && leb (h.get_next_try job) p.now
  is_overdue _ p = false

  -- The database answers with success if it is asked, ProcessJob does not panic, and no goroutine of
  -- PrepareRetryableJob starts with a job that is due already.
  abbrev pub is_safe : Event J → Pool J → Bool
  is_safe (passes n) p = true
  is_safe cancels p = true
  is_safe (enqueues saved job) p = saved
  is_safe (main_moves c saved) p = saved
  is_safe (worker_moves v saved i) p = saved && not (is_crash v)
  is_safe (retrier_moves wake saved i) p = saved && not (is_overdue (get_elem? p.retriers i) p)

  -- Every step of the schedule is safe in the pool in which it is taken.
  abbrev pub all_safe : {p q : Pool J} {es : List (Event J)} → Run h p es q → Bool
  all_safe here = true
  all_safe (next {q = q} {e = e} run s) = is_safe e q && all_safe run

-- Nothing more was lost.
pub record Lossless {J : Type 0} (p q : Pool J) : Type 0 where
  pub same_unsaved : q.ledger.unsaved ≡ p.ledger.unsaved
  pub same_dropped : q.ledger.dropped ≡ p.ledger.dropped
  pub same_crashed : q.ledger.crashed ≡ p.ledger.crashed
