-- ===== src/Pool/Shutdown/Accounts.antt =====
-- Where the jobs of a pool whose jobs succeed end up.
use bridge_core.Pool.Shutdown.Ends.{fresh-Settling}
use bridge_core.Pool.Safety.Shutdown.{halted-accounts}
use bridge_core.Pool.Shutdown.Halts.{Run-Settling}
use bridge_core.Pool.State.{Pool, Config, halted}
use bridge_core.Pool.Conservation.Weights.{IsStable, gained}
use bridge_core.Prelude.{◌+◌, arith, ℕ, refl, ◌≡◌, List, All, weigh}
use bridge_core.Pool.Safety.Start.{fresh_pool, set_up-AtRest}
use bridge_core.Pool.Shutdown.Calm.{IsCalmEvent, Calm}
use bridge_core.Types.{JobHandler}
use bridge_core.Pool.System.{Event, Run}

module _ {J : Type 0} (h : JobHandler J) (w : J → ℕ) (stable : IsStable h w) where
  -- In a pool that NewWithContext sets up and whose jobs all succeed, when Start has returned, the jobs
  -- that were enqueued, weighed by anything that the pool does not change, are those that were
  -- completed and those that were handed to the database as pending, whether it wrote them or not:
  -- none failed, was dropped or was lost in a panic.
  pub calm-accounts :
      (now : ℕ) (cfg : Config) {q : Pool J} {es : List (Event J)}
      → All IsCalmEvent es
      → Run h (fresh_pool J now cfg) es q
      → q.main ≡ halted
      → weigh w q.ledger.completed + weigh w q.ledger.pending_rows + weigh w q.ledger.unsaved
        ≡ weigh (gained w) es
  calm-accounts now cfg {q} calm run over =
      let rest = (set_up-AtRest J now cfg).1 in
      let c : Calm q = (Run-Settling h _ _ calm run (fresh-Settling now cfg)).calm in
      let all = (halted-accounts h w stable rest run over).1 in
      let no_failed : weigh w q.ledger.failed_rows ≡ 0 = rw (c.no_failed_row) refl in
      let no_dropped : weigh w q.ledger.dropped ≡ 0 = rw (c.none_dropped) refl in
      let no_crashed : weigh w q.ledger.crashed ≡ 0 = rw (c.none_crashed) refl in
      omega (arith, all, no_failed, no_dropped, no_crashed)
