-- ===== src/Pool/Safety/Hang.antt =====
-- Two ways in which the shutdown waits for ever: a goroutine of PrepareRetryableJob that returns
-- early keeps its unit of the wait group, and a worker whose job panics never closes its stopCh.
use bridge_core.Prelude.{
  ℕ, ◌≤◌, ◌≡◌, ◌≢◌, ◌⊎◌, subst, Bool, true, false, some, List, ◌∷◌, get_elem?, erase_at,
  length-erase_at, arith,
}
use bridge_core.Types.{JobHandler}
use bridge_core.Pool.State.{ready, halted, Pool}
use bridge_core.Pool.Retry.{Wake, begin, prepare_retryable_job}
use bridge_core.Pool.System.{Event, retrier_moves, step, Run}
use bridge_core.Pool.Invariant.Counts.{Surplus, Run-Surplus}
use bridge_core.Pool.Invariant.Phases.{Phases}
use bridge_core.Pool.Invariant.PhaseSteps.{step-Phases, Run-Phases}
use bridge_core.Pool.Safety.Start.{AtRest}

module _ {J : Type 0} (h : JobHandler J) where
  -- The goroutine returns early: the pool is closed already, or the next try is due already.
  abbrev pub ReturnsEarly : Pool J → J → Type 0
  ReturnsEarly p job = (p.is_closed ≡ true) ⊎ (h.get_next_try job ≤ p.now)

  begin-early :
      (saved : Bool) (p : Pool J) (i : ℕ) (job : J)
      → get_elem? p.retriers i ≡ some (ready job)
      → ReturnsEarly p job
      → Surplus 0 p
      → Surplus 1 (begin h saved p i job)
  unfolding begin
  begin-early saved p i job at early s = ground (arith, length-erase_at p.retriers i (ready job) at)

  Surplus-never_halts :
      {p q : Pool J} {es : List (Event J)} → Phases p → Surplus 1 p → Run h p es q → q.main ≢ halted
  Surplus-never_halts {p} {q} f s run over =
      let t : Surplus 1 q = Run-Surplus h 1 run s in
      let g : Phases q = Run-Phases h run f in ground (arith, g.counted_down)

  -- Once such a goroutine has returned, no schedule whatever lets Start return: it waits for the
  -- wait group for ever, so that Wait and Close never return either.
  pub early_return-never_halts :
      {p q t r : Pool J} {es fs : List (Event J)} (i : ℕ) (job : J) (wake : Wake) (saved : Bool)
      → AtRest p
      → Run h p es q
      → get_elem? q.retriers i ≡ some (ready job)
      → ReturnsEarly q job
      → step h (retrier_moves wake saved i) q ≡ some t
      → Run h t fs r
      → r.main ≢ halted
  unfolding step prepare_retryable_job
  early_return-never_halts {q = q} {t = t} i job wake saved rest run at early st later =
      let g : begin h saved q i job ≡ t = ground (arith, at) in
      Surplus-never_halts
        (step-Phases h (retrier_moves wake saved i) q t st (Run-Phases h run rest.phases))
        (subst (Surplus 1) g
          (begin-early saved q i job at early (Run-Surplus h 0 run rest.surplus)))
        later

  -- In an open pool the job of such a goroutine is gone: it is neither enqueued again nor written to
  -- the database.
  pub due_retry-dropped :
      (p t : Pool J) (i : ℕ) (job : J) (wake : Wake) (saved : Bool)
      → get_elem? p.retriers i ≡ some (ready job)
      → p.is_closed ≡ false
      → h.get_next_try job ≤ p.now
      → step h (retrier_moves wake saved i) p ≡ some t
      → (t.ledger.dropped ≡ job ∷ p.ledger.dropped)
        × (t.retriers ≡ erase_at p.retriers i)
        × (t.job_chan ≡ p.job_chan)
        × (t.ledger.pending_rows ≡ p.ledger.pending_rows)
        × (t.ledger.failed_rows ≡ p.ledger.failed_rows)
  unfolding step prepare_retryable_job begin
  due_retry-dropped p t i job wake saved at is_open due st = ground (arith, at)
