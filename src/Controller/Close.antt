-- ===== src/Controller/Close.antt =====
-- Close of the controller, and the contexts of the controller and of the pool. NewWithContext makes a
-- context with a cancel function from the caller's, and hands the caller's to NewPool: the pool's
-- context is `cancelled` in the model of the pool, and the controller's own one is done when its
-- cancel function was called or the caller's is done.
pub mod Loop
pub mod Hang
use bridge_core.Prelude.{Bool, true, false, ◌||◌, Option, none, some, if◌then◌else◌}
use bridge_core.Types.{JobHandler}
use bridge_core.Pool.State.{MainPc, halted, Pool}
use bridge_core.Pool.System.{Event, step}

pub record Running (J : Type 0) : Type 0 where
  pub pool : Pool J
  pub cancel_called : Bool

-- c.ctx.Done()
abbrev pub own_context_done : {J : Type 0} → Running J → Bool
own_context_done c = c.cancel_called || c.pool.cancelled

-- Close up to its wait for the pool.
unfoldable pub close : {J : Type 0} → Running J → Running J
close c = if c.pool.is_closed then c else record c { cancel_called = true }

-- Pool.Wait returns when Start has closed the channel `stop`, at its end.
abbrev pub wait_returns : {J : Type 0} → MainPc J → Bool
wait_returns halted = true
wait_returns _ = false

-- What happens to a controller: a move of its pool, or a call of Close.
pub data Happening (J : Type 0) : Type 0 where
  pool_moves : Event J → Happening J
  closes : Happening J

abbrev with_pool : {J : Type 0} → Running J → Option (Pool J) → Option (Running J)
with_pool c none = none
with_pool c (some p) = some (record c { pool = p })

module _ {J : Type 0} (h : JobHandler J) where
  unfoldable pub happen : Happening J → Running J → Option (Running J)
  unfolding close
  happen (pool_moves e) c = with_pool c (step h e c.pool)
  happen closes c = some (close c)
