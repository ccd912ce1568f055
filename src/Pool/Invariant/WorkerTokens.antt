-- ===== src/Pool/Invariant/WorkerTokens.antt =====
-- The steps of the workers keep the tokens.
use bridge_core.Prelude.{
  ==_iff, ◌<◌, ℕ, ◌≡◌, ◌++◌, refl, Bool, some, List, [], ◌∷◌, get_elem?, length, length-append, ltb,
  arith, Bool-cases, inl, inr, Option-cases, ◌==◌, false,
}
use bridge_core.Types.{JobHandler}
use bridge_core.Pool.State.{
  WorkerPc, registering, receiving, processing, failing, retrying, stopped, exited, Worker, Pool,
}
use bridge_core.Pool.Workers.{
  Verdict, succeeds, fails, crashes, register, take_job, send_failed, send_retry, finish,
  worker_step, start_worker, after_failure,
}
use bridge_core.Pool.Invariant.Tokens.{
  Moved, Moved-alone, Tokens-Moved, count, count-append, due, Tokens,
}

one_token : (i : ℕ) → count i (i ∷ []) ≡ 1
one_token i = ground (arith, ==_iff i i)

other_token : (i j : ℕ) → (i == j) ≡ false → count j (i ∷ []) ≡ 0
other_token i j other = ground (arith, other)

module _ {J : Type 0} (p q : Pool J) (t : Tokens p) (i : ℕ) (k : Worker J) where
  register-Moved : k.pc ≡ registering → register p i k ≡ some q → Moved p q i k
  unfolding register
  register-Moved now e = elim (Bool-cases p.queue.closed) [
    | inl shut ↦
        Moved-alone p q i k (record k { pc = exited }) t (ground (arith, shut, e))
          (ground (arith, shut, e)) (ground (arith, shut, e)) refl (rw now refl)
    | inr is_open ↦ elim (Bool-cases (ltb (length p.queue.items) p.queue.cap)) [
      | inr no_room ↦ ground (arith, is_open, no_room, e)
      | inl room ↦
          let items : q.queue.items ≡ p.queue.items ++ i ∷ [] = ground (arith, is_open, room, e) in
          let cap : q.queue.cap ≡ p.queue.cap = ground (arith, is_open, room, e) in
          let fewer : length p.queue.items < p.queue.cap = ground (arith, room) in
          let free : due k.pc ≡ 0 = rw now refl in
          record {
            moved = record k { pc = receiving };
            workers_are = ground (arith, is_open, room, e);
            main_is = ground (arith, is_open, room, e);
            keeps_open = refl;
            others = λ j other.
                rw items
                  (omega (arith, count-append j p.queue.items (i ∷ []), other_token i j other));
            pays =
                rw items (omega (arith, free, one_token i, count-append i p.queue.items (i ∷ [])));
            fits = rw items (omega (arith, length-append p.queue.items (i ∷ []), fewer, cap));
          }
    ]
  ]

  take_job-Moved :
      (items : List J)
      → k.worker_chan.items ≡ items
      → k.pc ≡ receiving
      → take_job p i k ≡ some q
      → Moved p q i k
  unfolding take_job
  take_job-Moved [] has now e = elim (Bool-cases k.worker_chan.closed) [
    | inl shut ↦
        Moved-alone p q i k (record k { pc = stopped }) t (ground (arith, has, shut, e))
          (ground (arith, has, shut, e)) (ground (arith, has, shut, e)) refl (rw now refl)
    | inr is_open ↦ ground (arith, has, is_open, e)
  ]
  take_job-Moved (job ∷ rest) has now e =
      Moved-alone p q i k
        (record k { worker_chan = record (k.worker_chan) { items = rest }; pc = processing job }) t
        (ground (arith, has, e)) (ground (arith, has, e)) (ground (arith, has, e)) refl
        (rw (now, has) (omega arith))

  send_failed-Moved :
      (job : J) → k.pc ≡ failing job → send_failed p i k job ≡ some q → Moved p q i k
  unfolding send_failed
  send_failed-Moved job now e = elim (Bool-cases p.failed_job_chan.closed) [
    | inl shut ↦
        Moved-alone p q i k (record k { pc = exited }) t (ground (arith, shut, e))
          (ground (arith, shut, e)) (ground (arith, shut, e)) refl (rw now refl)
    | inr is_open ↦
        Moved-alone p q i k (record k { pc = registering }) t (ground (arith, is_open, e))
          (ground (arith, is_open, e)) (ground (arith, is_open, e)) refl (rw now refl)
  ]

  send_retry-Moved :
      (saved : Bool) (job : J)
      → k.pc ≡ retrying job
      → send_retry saved p i k job ≡ some q
      → Moved p q i k
  unfolding send_retry
  send_retry-Moved saved job now e =
      Moved-alone p q i k (record k { pc = registering }) t (ground (arith, e)) (ground (arith, e))
        (ground (arith, e)) refl (rw now refl)

  module _ (h : JobHandler J) where
    due-after_failure : (now : ℕ) (job : J) → due (after_failure h now job) ≡ 0
    unfolding after_failure
    due-after_failure now job = ground arith

    finish-Moved :
        (v : Verdict) (job : J) → k.pc ≡ processing job → finish h v p i k job ≡ q → Moved p q i k
    unfolding finish
    finish-Moved succeeds job now e =
        Moved-alone p q i k (record k { pc = registering }) t (ground (arith, e))
          (ground (arith, e)) (ground (arith, e)) refl (rw now refl)
    finish-Moved fails job now e =
        Moved-alone p q i k (record k { pc = after_failure h p.now job }) t (ground (arith, e))
          (ground (arith, e)) (ground (arith, e)) refl
          (rw now (omega (arith, due-after_failure p.now job)))
    finish-Moved crashes job now e =
        Moved-alone p q i k (record k { pc = exited }) t (ground (arith, e)) (ground (arith, e))
          (ground (arith, e)) refl (rw now refl)

    worker_step-Moved :
        (v : Verdict) (saved : Bool) (pc : WorkerPc J)
        → k.pc ≡ pc
        → worker_step h v saved p i k pc ≡ some q
        → Moved p q i k
    unfolding worker_step
    worker_step-Moved v saved registering now e = register-Moved now e
    worker_step-Moved v saved receiving now e = take_job-Moved k.worker_chan.items refl now e
    worker_step-Moved v saved (processing job) now e = finish-Moved v job now (ground (arith, e))
    worker_step-Moved v saved (failing job) now e = send_failed-Moved job now e
    worker_step-Moved v saved (retrying job) now e = send_retry-Moved saved job now e
    worker_step-Moved v saved stopped now e = cc
    worker_step-Moved v saved exited now e = cc

module _ {J : Type 0} (h : JobHandler J) where
  pub start_worker-Tokens :
      (v : Verdict) (saved : Bool) (i : ℕ) (p q : Pool J)
      → start_worker h v saved i p ≡ some q
      → Tokens p
      → Tokens q
  unfolding start_worker
  start_worker-Tokens v saved i p q e t = elim (Option-cases (get_elem? p.workers i)) [
    | inl gone ↦ ground (arith, gone, e)
    | inr (k, at) ↦
        Tokens-Moved p q i k at
          (worker_step-Moved p q t i k h v saved k.pc refl (ground (arith, at, e))) t
  ]
