-- ===== src/Pool/Shutdown/MainCalm.antt =====
-- The steps of the main loop keep a pool whose jobs succeed calm.
use bridge_core.Pool.Invariant.MainTokens.{early_sending}
use bridge_core.Pool.Invariant.Tokens.{Tokens}
use bridge_core.Pool.Shutdown.Calm.{Quiet, Calm-main, Calm, Calm-set, ClosedAt, IsCalm}
use bridge_core.Prelude.{
  ◌∷◌, ℕ, Bool, get_elem?-set_same, ◌≡◌, inr, Option-cases, some, arith, ◌≢◌, ◌++◌, refl, false,
  All-get_elem?, get_elem?, inl, subst, [], set,
}
use bridge_core.Pool.Main.{
  job_case, retry_case, main_step, close_worker, failed_case, done_case, hand_out, Choice, select,
}
use bridge_core.Pool.State.{
  Pool, closing_channels, saving_failures, MainPc, closing_worker, saving_retries, Worker,
  waiting_worker, waiting_retries, sending, dispatching, selecting, closing, draining, halted,
}
use bridge_core.Pool.Channel.{close}

module _ {J : Type 0} (p q : Pool J) (c : Calm p) (t : Tokens p) where
  -- The main loop does not wait for a worker afterwards.
  aside : q.workers ≡ p.workers → Quiet p q → ((i : ℕ) → q.main ≢ waiting_worker i) → Calm q
  aside workers_are s elsewhere =
      Calm-main p q s c workers_are (λ i waits. absurd (elsewhere i waits))

  select-Calm :
      (v : Choice) (saved : Bool) → select v saved p ≡ some q → p.main ≡ selecting → Calm q
  unfolding select
  select-Calm failed_case saved e now = ground (arith, c.no_failure, e)
  select-Calm retry_case saved e now = ground (arith, c.no_retry, e)
  select-Calm job_case saved e now =
      aside (ground (arith, e)) (ground (arith, e)) (λ i waits. ground (arith, e, waits))
  select-Calm done_case saved e now =
      aside (ground (arith, e)) (ground (arith, e)) (λ i waits. ground (arith, e, waits))

  hand_out-Calm :
      (last : Bool) (i : ℕ) (job : J) (saved : Bool)
      → p.main ≡ sending last i job
      → hand_out saved last i job p ≡ some q
      → Calm q
  unfolding hand_out
  hand_out-Calm last i job saved now e = elim (Option-cases (get_elem? p.workers i)) [
    | inl gone ↦ ground (arith, gone, e)
    | inr (k, at) ↦
        let opened : k.worker_chan.closed ≡ false =
          t.still_open i k at (rw now (early_sending last i job)) in
        let calm : IsCalm k = All-get_elem? IsCalm p.workers i k c.all_calm at in
        Calm-set p q (ground (arith, at, opened, e)) c i
          (record k {
            worker_chan = record (k.worker_chan) { items = k.worker_chan.items ++ job ∷ [] };
          })
          (ground (arith, at, opened, e)) calm (λ j waits. ground (arith, at, opened, e, waits))
  ]

  close_worker-Calm : (n : ℕ) → close_worker n p ≡ q → Calm q
  unfolding close_worker
  close_worker-Calm n e = elim (Option-cases (get_elem? p.workers n)) [
    | inl gone ↦
        aside (ground (arith, gone, e)) (ground (arith, gone, e))
          (λ i waits. ground (arith, gone, e, waits))
    | inr (k, at) ↦
        let calm : IsCalm k = All-get_elem? IsCalm p.workers n k c.all_calm at in
        let shut : Worker J = record k { worker_chan = close k.worker_chan } in
        let same : (j : ℕ) → q.main ≡ waiting_worker j → n ≡ j =
          λ j waits. ground (arith, at, e, waits) in
        Calm-set p q (ground (arith, at, e)) c n shut (ground (arith, at, e)) calm (λ j waits.
          subst (ClosedAt (set p.workers n shut)) (same j waits) (record {
            worker = shut;
            is_at = get_elem?-set_same p.workers n k shut at;
            is_closed = refl;
          }))
  ]

  pub main_step-Calm :
      (v : Choice) (saved : Bool) (m : MainPc J)
      → p.main ≡ m
      → main_step v saved p m ≡ some q
      → Calm q
  unfolding main_step
  main_step-Calm v saved selecting now e = select-Calm v saved e now
  main_step-Calm v saved (dispatching last job) now e =
      aside (ground (arith, e)) (ground (arith, e)) (λ i waits. ground (arith, e, waits))
  main_step-Calm v saved (sending last i job) now e = hand_out-Calm last i job saved now e
  main_step-Calm v saved (closing_worker n) now e = close_worker-Calm n (ground (arith, e))
  main_step-Calm v saved closing now e =
      aside (ground (arith, e)) (ground (arith, e)) (λ i waits. ground (arith, e, waits))
  main_step-Calm v saved draining now e =
      aside (ground (arith, e)) (ground (arith, e)) (λ i waits. ground (arith, e, waits))
  main_step-Calm v saved (waiting_worker k) now e =
      aside (ground (arith, e)) (ground (arith, e)) (λ i waits. ground (arith, e, waits))
  main_step-Calm v saved closing_channels now e =
      aside (ground (arith, e)) (ground (arith, e)) (λ i waits. ground (arith, e, waits))
  main_step-Calm v saved saving_retries now e =
      aside (ground (arith, e)) (ground (arith, e)) (λ i waits. ground (arith, e, waits))
  main_step-Calm v saved saving_failures now e =
      aside (ground (arith, e)) (ground (arith, e)) (λ i waits. ground (arith, e, waits))
  main_step-Calm v saved waiting_retries now e =
      aside (ground (arith, e)) (ground (arith, e)) (λ i waits. ground (arith, e, waits))
  main_step-Calm v saved halted now e = cc
