-- ===== src/Controller/Close/Hang.antt =====
-- Close and the pool's shutdown.
use bridge_core.Controller.Close.Loop.{keeps_context, Looping, step-Looping}
use bridge_core.Controller.Close.{
  Happening, pool_moves, Running, own_context_done, wait_returns, happen, close, step, closes,
}
use bridge_core.Types.{JobHandler}
use bridge_core.Prelude.{
  ◌≡◌, true, Bool, arith, inl, inr, List, ◌∷◌, some, false, Option-cases, refl, ◌&&◌, [],
}
use bridge_core.Pool.System.{step}

module _ {J : Type 0} (h : JobHandler J) where
  -- What happened to a controller, newest first.
  pub data History (c : Running J) : List (Happening J) → Running J → Type 0 where
    at_start : History c [] c
    then_happens :
        {d e : Running J} {x : Happening J} {xs : List (Happening J)}
        → History c xs d
        → happen h x d ≡ some e
        → History c (x ∷ xs) e

  -- No event of the history ends the caller's context; calls of Close are allowed.
  abbrev pub keeps_caller : List (Happening J) → Bool
  keeps_caller [] = true
  keeps_caller (pool_moves e ∷ xs) = keeps_context e && keeps_caller xs
  keeps_caller (closes ∷ xs) = keeps_caller xs

  happen-Looping :
      (x : Happening J) (c d : Running J)
      → keeps_caller (x ∷ []) ≡ true
      → happen h x c ≡ some d
      → Looping c.pool
      → Looping d.pool
  unfolding happen close
  happen-Looping (pool_moves e) c d keeps st l = elim (Option-cases (step h e c.pool)) [
    | inl stuck ↦ ground (arith, stuck)
    | inr (p, moved) ↦
        let same : d.pool ≡ p = ground (arith, moved) in
        rw same (step-Looping h e c.pool p (ground arith) moved l)
  ]
  happen-Looping closes c d keeps st l = ground arith

  History-Looping :
      {c d : Running J} {xs : List (Happening J)}
      → History c xs d
      → keeps_caller xs ≡ true
      → Looping c.pool
      → Looping d.pool
  History-Looping at_start keeps l = l
  History-Looping (then_happens {d = d} {e = e} {x = pool_moves m} past st) keeps l =
      happen-Looping (pool_moves m) d e (ground arith) st (History-Looping past (ground arith) l)
  History-Looping (then_happens {d = d} {e = e} {x = closes} past st) keeps l =
      happen-Looping closes d e refl st (History-Looping past (ground arith) l)

  -- From a pool in its loop, as NewWithContext sets it up, and as long as the caller's context is not
  -- done: however often Close is called and whatever the pool does, Close's wait does not return, and
  -- the pool does not even begin to shut down, although the controller's own context is done
  -- from the first call of Close on.
  pub close-never_returns :
      {c d e : Running J} {xs ys : List (Happening J)}
      → Looping c.pool
      → History c xs d
      → History (close d) ys e
      → keeps_caller xs ≡ true
      → keeps_caller ys ≡ true
      → (wait_returns e.pool.main ≡ false)
        × (own_context_done (close d) ≡ true)
        × (e.pool.cancelled ≡ false)
  unfolding close
  close-never_returns {d = d} {e = e} l before after keeps keeps' =
      let m = History-Looping before keeps l in
      let n = History-Looping after keeps' (ground arith) in
      (ground arith, ground arith, n.not_cancelled)
