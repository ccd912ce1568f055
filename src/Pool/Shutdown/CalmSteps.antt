-- ===== src/Pool/Shutdown/CalmSteps.antt =====
-- Every event keeps a pool whose jobs succeed calm.
use bridge_core.Pool.Ops.{enqueue}
use bridge_core.Pool.State.{Pool}
use bridge_core.Pool.Invariant.TokenSteps.{Run-Tokens}
use bridge_core.Pool.Shutdown.WorkerCalm.{worker_step-Calm}
use bridge_core.Pool.Shutdown.MainCalm.{main_step-Calm}
use bridge_core.Pool.Invariant.Phases.{Phases}
use bridge_core.Pool.Invariant.PhaseSteps.{Run-Phases}
use bridge_core.Pool.Invariant.Tokens.{Tokens}
use bridge_core.Pool.Shutdown.Calm.{Quiet, Calm, IsCalmEvent, Calm-main}
use bridge_core.Pool.Workers.{start_worker}
use bridge_core.Prelude.{
  Option, none, sym, ◌≡◌, All, some, ◌∙◌, inr, inl, List, arith, refl, Option-cases, Bool,
  get_elem?,
}
use bridge_core.Pool.Retry.{prepare_retryable_job}
use bridge_core.Types.{JobHandler}
use bridge_core.Pool.System.{
  Event, passes, cancels, enqueues, main_moves, worker_moves, retrier_moves, step, Run, here, next,
}

module _ {J : Type 0} (h : JobHandler J) (p q : Pool J) (c : Calm p) (t : Tokens p)
    (f : Phases p) where
  unmoved : q.workers ≡ p.workers → Quiet p q → q.main ≡ p.main → Calm q
  unmoved workers_are s main_is =
      Calm-main p q s c workers_are (λ i waits. c.waits_closed i (sym main_is ∙ waits))

  enqueue-Calm : (saved : Bool) (job : Option J) → enqueue saved job p ≡ some q → Calm q
  unfolding enqueue
  enqueue-Calm saved none e = unmoved (ground (arith, e)) (ground (arith, e)) (ground (arith, e))
  enqueue-Calm saved (some job) e =
      unmoved (ground (arith, e)) (ground (arith, e)) (ground (arith, e))

  pub step-Calm : (e : Event J) → IsCalmEvent e → step h e p ≡ some q → Calm q
  unfolding step start_worker prepare_retryable_job
  step-Calm (passes n) calm e = unmoved (ground (arith, e)) (ground (arith, e)) (ground (arith, e))
  step-Calm cancels calm e = unmoved (ground (arith, e)) (ground (arith, e)) (ground (arith, e))
  step-Calm (enqueues saved job) calm e = enqueue-Calm saved job e
  step-Calm (main_moves v saved) calm e = main_step-Calm p q c t v saved p.main refl e
  step-Calm (worker_moves v saved i) calm e = elim (Option-cases (get_elem? p.workers i)) [
    | inl gone ↦ ground (arith, gone, e)
    | inr (k, at) ↦
        worker_step-Calm p q c f i k at h saved k.pc refl (rw (← calm) (ground (arith, at, e)))
  ]
  step-Calm (retrier_moves wake saved i) calm e = ground (arith, c.no_retrier, e)

module _ {J : Type 0} (h : JobHandler J) where
  pub Run-Calm :
      {p q : Pool J} {es : List (Event J)}
      → All IsCalmEvent es
      → Run h p es q
      → Phases p
      → Tokens p
      → Calm p
      → Calm q
  Run-Calm calm here f t c = c
  Run-Calm calm (next {q = q} {r = r} {e = e} run st) f t c =
      step-Calm h q r (Run-Calm calm.1 run f t c) (Run-Tokens h run f t) (Run-Phases h run f) e
        calm.0 st
