-- ===== src/Pool/Conservation/Loop.antt =====
-- Each step of the main loop keeps the total weight.
use bridge_core.Prelude.{
  ℕ, ◌≡◌, refl, Bool, some, [], ◌∷◌, List, get_elem?, weigh-set, arith, inl, inr, Option-cases,
  true, false,
}
use bridge_core.Pool.Channel.{close}
use bridge_core.Pool.State.{
  MainPc, selecting, dispatching, sending, closing, draining, closing_worker, waiting_worker,
  closing_channels, saving_retries, saving_failures, waiting_retries, halted, Pool,
}
use bridge_core.Pool.Main.{
  Choice, failed_case, retry_case, job_case, done_case, take_failed, take_retry, take_new, select,
  dispatch, hand_out, drain, close_worker, save_retry, save_failure, main_step, jump,
}
use bridge_core.Pool.Conservation.Weights.{weigh_main, weigh_worker, total}
use bridge_core.Pool.Conservation.Moves.{total-send_job_to_worker}

module _ {J : Type 0} (w : J → ℕ) (p q : Pool J) where
  total-take_failed :
      (saved : Bool) (items : List J)
      → p.failed_job_chan.items ≡ items
      → weigh_main w p.main ≡ 0
      → take_failed saved p ≡ some q
      → total w q ≡ total w p
  unfolding take_failed
  total-take_failed saved [] has z e = ground arith
  total-take_failed saved (job ∷ rest) has z e = ground arith

  total-take_retry :
      (items : List J)
      → p.retry_job_chan.items ≡ items
      → take_retry p ≡ some q
      → total w q ≡ total w p
  unfolding take_retry
  total-take_retry [] has e = ground arith
  total-take_retry (job ∷ rest) has e = ground arith

  total-take_new :
      (items : List J)
      → p.job_chan.items ≡ items
      → weigh_main w p.main ≡ 0
      → take_new p ≡ some q
      → total w q ≡ total w p
  unfolding take_new
  total-take_new [] has z e = ground arith
  total-take_new (job ∷ rest) has z e = ground arith

  total-select :
      (c : Choice) (saved : Bool)
      → weigh_main w p.main ≡ 0
      → select c saved p ≡ some q
      → total w q ≡ total w p
  unfolding select
  total-select failed_case saved z e = total-take_failed saved p.failed_job_chan.items refl z e
  total-select retry_case saved z e = total-take_retry p.retry_job_chan.items refl e
  total-select job_case saved z e = total-take_new p.job_chan.items refl z e
  total-select done_case saved z e = ground arith

  total-dispatch :
      (last : Bool) (job : J) (items : List ℕ)
      → p.queue.items ≡ items
      → weigh_main w p.main ≡ w job
      → dispatch last job p ≡ some q
      → total w q ≡ total w p
  unfolding dispatch
  total-dispatch last job [] has z e = ground arith
  total-dispatch last job (i ∷ rest) has z e = ground arith

  total-hand_out :
      (saved last : Bool) (i : ℕ) (job : J)
      → weigh_main w p.main ≡ w job
      → hand_out saved last i job p ≡ some q
      → total w q ≡ total w p
  unfolding hand_out
  total-hand_out saved true i job z e =
      omega (arith, total-send_job_to_worker w (jump draining p) q i saved job e)
  total-hand_out saved false i job z e =
      omega (arith, total-send_job_to_worker w (jump selecting p) q i saved job e)

  total-drain :
      (items : List J)
      → p.job_chan.items ≡ items
      → weigh_main w p.main ≡ 0
      → drain p ≡ some q
      → total w q ≡ total w p
  unfolding drain
  total-drain [] has z e = ground arith
  total-drain (job ∷ rest) has z e = ground arith

  total-close_worker :
      (k : ℕ) → weigh_main w p.main ≡ 0 → some (close_worker k p) ≡ some q → total w q ≡ total w p
  unfolding close_worker
  total-close_worker k z e = elim (Option-cases (get_elem? p.workers k)) [
    | inl gone ↦ ground (arith, gone)
    | inr (v, at) ↦ ground (
      arith,
      at,
      weigh-set (weigh_worker w) p.workers k v (record v { worker_chan = close v.worker_chan }) at,
    )
  ]

  total-save_retry :
      (saved : Bool) (items : List J)
      → p.retry_job_chan.items ≡ items
      → weigh_main w p.main ≡ 0
      → save_retry saved p ≡ some q
      → total w q ≡ total w p
  unfolding save_retry
  total-save_retry saved [] has z e = ground arith
  total-save_retry saved (job ∷ rest) has z e = ground arith

  total-save_failure :
      (saved : Bool) (items : List J)
      → p.failed_job_chan.items ≡ items
      → weigh_main w p.main ≡ 0
      → save_failure saved p ≡ some q
      → total w q ≡ total w p
  unfolding save_failure
  total-save_failure saved [] has z e = ground arith
  total-save_failure saved (job ∷ rest) has z e = ground arith

  pub total-main_step :
      (c : Choice) (saved : Bool) (m : MainPc J)
      → p.main ≡ m
      → main_step c saved p m ≡ some q
      → total w q ≡ total w p
  unfolding main_step
  total-main_step c saved selecting has e = total-select c saved (rw has) e
  total-main_step c saved (dispatching last job) has e =
      total-dispatch last job p.queue.items refl (rw has) e
  total-main_step c saved (sending last i job) has e = total-hand_out saved last i job (rw has) e
  total-main_step c saved closing has e = ground arith
  total-main_step c saved draining has e = total-drain p.job_chan.items refl (rw has) e
  total-main_step c saved (closing_worker k) has e = total-close_worker k (rw has) e
  total-main_step c saved (waiting_worker k) has e = ground arith
  total-main_step c saved closing_channels has e = ground arith
  total-main_step c saved saving_retries has e =
      total-save_retry saved p.retry_job_chan.items refl (rw has) e
  total-main_step c saved saving_failures has e =
      total-save_failure saved p.failed_job_chan.items refl (rw has) e
  total-main_step c saved waiting_retries has e = ground arith
  total-main_step c saved halted has e = ground arith
