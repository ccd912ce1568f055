-- ===== src/Pool/Processing/OfBase.antt =====
-- What becomes of a BaseJob in a worker.
use bridge_core.Prelude.{
  ℕ, ◌≡◌, ◌∙◌, ◌⊎◌, inl, inr, refl, ap, String, Bool, true, false, Option, none, some, List,
  get_elem?, arith, Bool-cases, ◌==◌,
}
use bridge_core.Prelude.Map.{lookup, string_eq}
use bridge_core.Types.{
  Transaction, Subscribe, Handler, listen_handler, Processing, value, process_failed,
  process_panics,
}
use bridge_core.Models.{Event}
use bridge_core.Job.Base.{BaseJob, Codec, process, stored, of_handler, of_subscription, new_event}
use bridge_core.Job.Handler.{base_handler}
use bridge_core.Pool.State.{Pool, Worker, processing, registering, exited}
use bridge_core.Pool.Workers.{
  Verdict, succeeds, crashes, start_worker, complete, crash, goto, worker_step, finish,
}
use bridge_core.Pool.Processing.{
  process_job, base_work, JobWork, after_process, verdict_of, sends_callbacks,
}

module _ {L W : Type 0} (codec : Codec) (now : ℕ) (save_event : Event → W → W × Bool)
    (send_callbacks : BaseJob → L → String → Transaction → Option (List ℕ) → W → W × Bool)
    (listeners : L) where
  abbrev work : JobWork BaseJob L W
  work = base_work codec now save_event send_callbacks

  -- Process does not return an error.
  abbrev NoFailure : W × Processing → Type 0
  NoFailure (w, value val) = Unit {0}
  NoFailure (w, process_failed) = ⊥
  NoFailure (w, process_panics) = Unit {0}

  stored-NoFailure : (e : BaseJob) (a : W × Bool) → NoFailure (stored codec save_event e a)
  stored-NoFailure e (w, true) = tt
  stored-NoFailure e (w, false) = tt

  of_handler-NoFailure :
      (e : BaseJob) (w : W) (h : Option Handler) → NoFailure (of_handler codec save_event now e w h)
  of_handler-NoFailure e w none = tt
  of_handler-NoFailure e w (some h) =
      stored-NoFailure e (save_event (new_event codec now e h.name) w)

  of_subscription-NoFailure :
      (e : BaseJob) (w : W) (s : Option Subscribe)
      → NoFailure (of_subscription codec save_event now e w s)
  of_subscription-NoFailure e w none = tt
  of_subscription-NoFailure e w (some s) = of_handler-NoFailure e w s.handler

  process-NoFailure : (e : BaseJob) (w : W) → NoFailure (process codec save_event now e w)
  unfolding process
  process-NoFailure e w = elim (Bool-cases (e.job_type == listen_handler)) [
    | inl listens ↦
        rw listens
          (of_subscription-NoFailure e w (lookup e.subscription_name e.listener.subscriptions))
    | inr other ↦ rw other tt
  ]

  -- ProcessJob ends without an error.
  abbrev NoError : W × Verdict → Type 0
  NoError (w, v) = (v ≡ succeeds) ⊎ (v ≡ crashes)

  verdict_of-NoError : (a : W × Bool) → NoError (verdict_of work listeners a)
  verdict_of-NoError (w, true) = inl refl
  verdict_of-NoError (w, false) = inr refl

  after_process-NoError :
      (e : BaseJob) (a : W × Processing) → NoFailure a → NoError (after_process work listeners e a)
  after_process-NoError e (w, process_panics) fine = inr refl
  after_process-NoError e (w, process_failed) fine = absurd fine
  after_process-NoError e (w, value val) fine =
      elim (Bool-cases (sends_callbacks work listeners e)) [
        | inl sends ↦
            rw sends
              (verdict_of-NoError (send_callbacks e listeners e.subscription_name e.tx val w))
        | inr silent ↦ rw silent (inl refl)
      ]

  started :
      (v : Verdict) (saved : Bool) (p : Pool BaseJob) (i : ℕ) (k : Worker BaseJob) (e : BaseJob)
      → get_elem? p.workers i ≡ some k
      → k.pc ≡ processing e
      → start_worker base_handler v saved i p ≡ some (finish base_handler v p i k e)
  unfolding start_worker worker_step
  started v saved p i k e there at = ground (arith, there, at)

  -- A worker that processes a BaseJob either completes it and goes on, or leaves its loop by a panic,
  -- whatever the event store answers: since Process only logs an error of its Save and returns none,
  -- no BaseJob is retried or given up.
  pub start_worker-base :
      (saved : Bool) (p : Pool BaseJob) (i : ℕ) (k : Worker BaseJob) (e : BaseJob) (w : W)
      → get_elem? p.workers i ≡ some k
      → k.pc ≡ processing e
      → (start_worker base_handler (process_job work listeners e w).1 saved i p
          ≡ some (complete e (goto p i k registering)))
        ⊎ (start_worker base_handler (process_job work listeners e w).1 saved i p
            ≡ some (crash e (goto p i k exited)))
  unfolding process_job finish
  start_worker-base saved p i k e w there at =
      let step = started (process_job work listeners e w).1 saved p i k e there at in
      elim (after_process-NoError e (process codec save_event now e w) (process-NoFailure e w)) [
        | inl done ↦ inl (step ∙ ap (λ v. some (finish base_handler v p i k e)) done)
        | inr crashed ↦ inr (step ∙ ap (λ v. some (finish base_handler v p i k e)) crashed)
      ]
