-- ===== src/Pool/Conservation/MainLosses.antt =====
-- The steps of the main loop lose no job if the database answers with success.
use bridge_core.Prelude.{ℕ, ◌≡◌, Bool, some, get_elem?, arith, inl, inr, Option-cases, true}
use bridge_core.Pool.State.{
  MainPc, selecting, dispatching, sending, closing, draining, closing_worker, waiting_worker,
  closing_channels, saving_retries, saving_failures, waiting_retries, halted, Pool,
}
use bridge_core.Pool.Main.{
  Choice, failed_case, retry_case, job_case, done_case, select, hand_out, close_worker, main_step,
}
use bridge_core.Pool.Conservation.Losses.{Lossless}

module _ {J : Type 0} (p q : Pool J) where
  select-Lossless : (c : Choice) → select c true p ≡ some q → Lossless p q
  unfolding select
  select-Lossless failed_case e = ground (arith, e)
  select-Lossless retry_case e = ground (arith, e)
  select-Lossless job_case e = ground (arith, e)
  select-Lossless done_case e = ground (arith, e)

  hand_out-Lossless :
      (last : Bool) (i : ℕ) (job : J) → hand_out true last i job p ≡ some q → Lossless p q
  unfolding hand_out
  hand_out-Lossless last i job e = elim (Option-cases (get_elem? p.workers i)) [
    | inl gone ↦ ground (arith, gone, e)
    | inr (k, at) ↦ ground (arith, at, e)
  ]

  close_worker-Lossless : (k : ℕ) → close_worker k p ≡ q → Lossless p q
  unfolding close_worker
  close_worker-Lossless k e = elim (Option-cases (get_elem? p.workers k)) [
    | inl gone ↦ ground (arith, gone, e)
    | inr (v, at) ↦ ground (arith, at, e)
  ]

  pub main_step-Lossless :
      (c : Choice) (m : MainPc J) → main_step c true p m ≡ some q → Lossless p q
  unfolding main_step
  main_step-Lossless c selecting e = select-Lossless c e
  main_step-Lossless c (dispatching last job) e = ground (arith, e)
  main_step-Lossless c (sending last i job) e = hand_out-Lossless last i job e
  main_step-Lossless c closing e = ground (arith, e)
  main_step-Lossless c draining e = ground (arith, e)
  main_step-Lossless c (closing_worker k) e = close_worker-Lossless k (ground (arith, e))
  main_step-Lossless c (waiting_worker k) e = ground (arith, e)
  main_step-Lossless c closing_channels e = ground (arith, e)
  main_step-Lossless c saving_retries e = ground (arith, e)
  main_step-Lossless c saving_failures e = ground (arith, e)
  main_step-Lossless c waiting_retries e = ground (arith, e)
  main_step-Lossless c halted e = ground (arith, e)
