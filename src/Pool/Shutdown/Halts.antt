-- ===== src/Pool/Shutdown/Halts.antt =====
-- Schedules of the steps of the main loop and of workers whose jobs succeed, in a pool that shuts down.
use bridge_core.Pool.Safety.Jam.{start_worker-Keeps}
use bridge_core.Pool.Invariant.Phases.{stage}
use bridge_core.Pool.Invariant.PhaseSteps.{step-Phases}
use bridge_core.Pool.State.{Pool, halted, MainPc}
use bridge_core.Pool.Shutdown.Progress.{Settling}
use bridge_core.Pool.Shutdown.WorkerCalm.{open_for}
use bridge_core.Pool.Workers.{worker_step, start_worker, succeeds}
use bridge_core.Pool.Invariant.TokenSteps.{step-Tokens}
use bridge_core.Pool.Shutdown.CalmSteps.{step-Calm}
use bridge_core.Prelude.{
  ◌+◌, All-get_elem?, Option-cases, inl, List, get_elem?, arith, inr, length, ◌≡◌, refl, some, ℕ,
  All, ◌≤◌, ◌≢◌, ◌⊎◌,
}
use bridge_core.Pool.Invariant.Sizes.{step-Sizes}
use bridge_core.Pool.Shutdown.Calm.{IsCalm, IsCalmEvent}
use bridge_core.Pool.Shutdown.MainWork.{main_step-work}
use bridge_core.Types.{JobHandler}
use bridge_core.Pool.Shutdown.Work.{IsOwn, UsesUp, worker_step-work, work}
use bridge_core.Pool.System.{
  Event, main_moves, worker_moves, step, Run, here, next, retrier_moves, passes, enqueues, cancels,
}

module _ {J : Type 0} where
  own-IsCalmEvent : (e : Event J) → IsOwn e → IsCalmEvent e
  own-IsCalmEvent (main_moves v saved) own = tt
  own-IsCalmEvent (worker_moves v saved i) own = own
  own-IsCalmEvent (passes n) own = tt
  own-IsCalmEvent cancels own = tt
  own-IsCalmEvent (enqueues saved job) own = tt
  own-IsCalmEvent (retrier_moves wake saved i) own = tt

  pub halted-cases : (m : MainPc J) → (m ≡ halted) ⊎ (m ≢ halted)
  halted-cases halted = inl refl
  halted-cases m = inr (λ is. ground (arith, is))

module _ {J : Type 0} (h : JobHandler J) (n cap : ℕ) where
  own-UsesUp :
      (e : Event J) (p q : Pool J)
      → IsOwn e
      → Settling n cap p
      → 1 ≤ stage p.main
      → step h e p ≡ some q
      → UsesUp p q
  unfolding step start_worker
  own-UsesUp (main_moves v saved) p q own s late e =
      main_step-work p q s.tokens s.calm s.phases v saved p.main refl late e
  own-UsesUp (worker_moves v saved i) p q own s late e =
      elim (Option-cases (get_elem? p.workers i)) [
        | inl gone ↦ ground (arith, gone, e)
        | inr (k, at) ↦
            let calm : IsCalm k = All-get_elem? IsCalm p.workers i k s.calm.all_calm at in
            let moved : worker_step h succeeds saved p i k k.pc ≡ some q =
              rw (← own) (ground (arith, at, e)) in
            (
              worker_step-work p q h saved i k at k.pc calm.0 (open_for p q s.calm s.phases i k at)
                  refl moved,
              rw ((start_worker-Keeps h p q v saved i e).main_is) late,
            )
      ]
  own-UsesUp (passes k) p q own s late e = absurd own
  own-UsesUp cancels p q own s late e = absurd own
  own-UsesUp (enqueues saved job) p q own s late e = absurd own
  own-UsesUp (retrier_moves wake saved i) p q own s late e = absurd own

  step-Settling :
      (e : Event J) (p q : Pool J)
      → IsCalmEvent e
      → step h e p ≡ some q
      → Settling n cap p
      → Settling n cap q
  step-Settling e p q calm st s = record {
    phases = step-Phases h e p q st s.phases;
    tokens = step-Tokens h e p q st s.phases s.tokens;
    sizes = step-Sizes h n cap e p q st s.sizes;
    calm = step-Calm h p q s.calm s.tokens s.phases e calm st;
  }

  pub Run-Settling :
      {p q : Pool J} {es : List (Event J)}
      → All IsCalmEvent es
      → Run h p es q
      → Settling n cap p
      → Settling n cap q
  Run-Settling calm here s = s
  Run-Settling calm (next {q = q} {r = r} {e = e} run st) s =
      step-Settling e q r calm.0 st (Run-Settling calm.1 run s)

  -- A schedule of own steps, with the work that it leaves.
  pub record Progressed (p q : Pool J) (es : List (Event J)) : Type 0 where
    pub settling : Settling n cap q
    pub late : 1 ≤ stage q.main
    pub used : length es + work q ≤ work p

  pub Run-Progressed :
      {p q : Pool J} {es : List (Event J)}
      → Settling n cap p
      → 1 ≤ stage p.main
      → All IsOwn es
      → Run h p es q
      → Progressed p q es
  Run-Progressed s late own here = record { settling = s; late = late; used = omega arith }
  Run-Progressed s late own (next {q = q} {r = r} {e = e} run st) =
      let before = Run-Progressed s late own.1 run in
      let less = own-UsesUp e q r own.0 before.settling before.late st in
      record {
        settling = step-Settling e q r (own-IsCalmEvent e own.0) st before.settling;
        late = less.1;
        used = omega (arith, before.used, less.0);
      }
