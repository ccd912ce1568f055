-- ===== src/Pool/Shutdown/MainWork.antt =====
-- Each step of the main loop in the shutdown uses up one of the steps that are left.
use bridge_core.Pool.Invariant.Tokens.{Tokens}
use bridge_core.Pool.Shutdown.Work.{worker_work, main_work, UsesUp}
use bridge_core.Pool.Invariant.Phases.{Phases, stage}
use bridge_core.Pool.Shutdown.Calm.{Calm}
use bridge_core.Prelude.{
  false, ◌<◌, inl, ◌++◌, ◌*◌, ◌≤◌, length-set, ◌+◌, refl, ℕ, get_elem?, ◌≡◌, length, Bool, ◌∷◌, inr,
  suc, Option-cases, arith, length-append, weigh-set, some, List, true, [], set, get_elem?-below,
}
use bridge_core.Pool.Main.{hand_out, close_worker, Choice, await_worker, main_step, drain, dispatch}
use bridge_core.Pool.Invariant.MainTokens.{early_sending}
use bridge_core.Pool.State.{
  Pool, waiting_retries, closing_worker, MainPc, closing_channels, Worker, saving_failures,
  saving_retries, waiting_worker, sending, draining, dispatching, selecting, closing, halted,
}
use bridge_core.Pool.Channel.{close}

module _ {J : Type 0} (p q : Pool J) (t : Tokens p) where
  hand_out-work :
      (i : ℕ) (job : J) (saved : Bool)
      → p.main ≡ sending true i job
      → hand_out saved true i job p ≡ some q
      → UsesUp p q
  unfolding hand_out
  hand_out-work i job saved now e = elim (Option-cases (get_elem? p.workers i)) [
    | inl gone ↦ ground (arith, gone, e)
    | inr (k, at) ↦
        let opened : k.worker_chan.closed ≡ false =
          t.still_open i k at (rw now (early_sending true i job)) in
        let k' : Worker J = record k {
          worker_chan = record (k.worker_chan) { items = k.worker_chan.items ++ job ∷ [] };
        } in
        let workers_are : q.workers ≡ set p.workers i k' = ground (arith, at, opened, e) in
        let main_is : q.main ≡ draining = ground (arith, at, opened, e) in
        let jobs_are : q.job_chan ≡ p.job_chan = ground (arith, at, opened, e) in
        let weight = weigh-set worker_work p.workers i k k' at in
        let longer = length-append k.worker_chan.items (job ∷ []) in
        (
          rw (workers_are, main_is, jobs_are, now, length-set p.workers i k')
              (omega (arith, weight, longer)),
          rw main_is (omega arith),
        )
  ]

  close_worker-work : (n : ℕ) → p.main ≡ closing_worker n → close_worker n p ≡ q → UsesUp p q
  unfolding close_worker
  close_worker-work n now e = elim (Option-cases (get_elem? p.workers n)) [
    | inl gone ↦
        let workers_are : q.workers ≡ p.workers = ground (arith, gone, e) in
        let main_is : q.main ≡ closing_channels = ground (arith, gone, e) in
        let jobs_are : q.job_chan ≡ p.job_chan = ground (arith, gone, e) in
        (rw (workers_are, main_is, jobs_are, now) (omega arith), rw main_is (omega arith))
    | inr (k, at) ↦
        let k' : Worker J = record k { worker_chan = close k.worker_chan } in
        let workers_are : q.workers ≡ set p.workers n k' = ground (arith, at, e) in
        let main_is : q.main ≡ waiting_worker n = ground (arith, at, e) in
        let jobs_are : q.job_chan ≡ p.job_chan = ground (arith, at, e) in
        let weight = weigh-set worker_work p.workers n k k' at in
        (
          rw (workers_are, main_is, jobs_are, now, length-set p.workers n k')
              (omega (arith, weight)),
          rw main_is (omega arith),
        )
  ]

  -- A step that leaves the workers alone.
  main-work :
      (m m' : MainPc J)
      → p.main ≡ m
      → q.main ≡ m'
      → q.workers ≡ p.workers
      → main_work (length p.workers) m' + 6 * length q.job_chan.items
        < main_work (length p.workers) m + 6 * length p.job_chan.items
      → 1 ≤ stage m'
      → UsesUp p q
  main-work m m' now main_is workers_are less late =
      (rw (workers_are, main_is, now) (omega (arith, less)), rw main_is late)

  drain-work :
      (items : List J)
      → p.job_chan.items ≡ items
      → p.main ≡ draining
      → drain p ≡ some q
      → UsesUp p q
  unfolding drain
  drain-work [] has now e =
      let jobs_are : q.job_chan ≡ p.job_chan = ground (arith, has, e) in
      main-work draining (closing_worker 0) now (ground (arith, has, e)) (ground (arith, has, e))
        (rw jobs_are (omega arith)) (omega arith)
  drain-work (job ∷ rest) has now e =
      let jobs_are : q.job_chan.items ≡ rest = ground (arith, has, e) in
      main-work draining (dispatching true job) now (ground (arith, has, e))
        (ground (arith, has, e)) (rw (jobs_are, has) (omega arith)) (omega arith)

  dispatch-work :
      (job : J) (items : List ℕ)
      → p.queue.items ≡ items
      → p.main ≡ dispatching true job
      → dispatch true job p ≡ some q
      → UsesUp p q
  unfolding dispatch
  dispatch-work job [] has now e = ground (arith, has, e)
  dispatch-work job (i ∷ rest) has now e =
      let jobs_are : q.job_chan ≡ p.job_chan = ground (arith, has, e) in
      main-work (dispatching true job) (sending true i job) now (ground (arith, has, e))
        (ground (arith, has, e)) (rw jobs_are (omega arith)) (omega arith)

  await_worker-work : (n : ℕ) → p.main ≡ waiting_worker n → await_worker n p ≡ some q → UsesUp p q
  unfolding await_worker
  await_worker-work n now e = elim (Option-cases (get_elem? p.workers n)) [
    | inl gone ↦ ground (arith, gone, e)
    | inr (k, at) ↦
        let below = get_elem?-below p.workers n k at in
        let jobs_are : q.job_chan ≡ p.job_chan = ground (arith, at, e) in
        main-work (waiting_worker n) (closing_worker (suc n)) now (ground (arith, at, e))
          (ground (arith, at, e)) (rw jobs_are (omega (arith, below))) (omega arith)
  ]

  pub main_step-work :
      (c : Calm p) (f : Phases p) (v : Choice) (saved : Bool) (m : MainPc J)
      → p.main ≡ m
      → 1 ≤ stage m
      → main_step v saved p m ≡ some q
      → UsesUp p q
  unfolding main_step
  main_step-work c f v saved selecting now late e = absurd (omega (arith, late))
  main_step-work c f v saved (dispatching false job) now late e = absurd (omega (arith, late))
  main_step-work c f v saved (dispatching true job) now late e =
      dispatch-work job p.queue.items refl now e
  main_step-work c f v saved (sending false i job) now late e = absurd (omega (arith, late))
  main_step-work c f v saved (sending true i job) now late e = hand_out-work i job saved now e
  main_step-work c f v saved closing now late e =
      let jobs_are : q.job_chan.items ≡ p.job_chan.items = ground (arith, e) in
      main-work closing draining now (ground (arith, e)) (ground (arith, e))
        (rw jobs_are (omega arith)) (omega arith)
  main_step-work c f v saved draining now late e = drain-work p.job_chan.items refl now e
  main_step-work c f v saved (closing_worker n) now late e =
      close_worker-work n now (ground (arith, e))
  main_step-work c f v saved (waiting_worker n) now late e = await_worker-work n now e
  main_step-work c f v saved closing_channels now late e =
      let jobs_are : q.job_chan.items ≡ p.job_chan.items = ground (arith, e) in
      main-work closing_channels saving_retries now (ground (arith, e)) (ground (arith, e))
        (rw jobs_are (omega arith)) (omega arith)
  main_step-work c f v saved saving_retries now late e =
      let jobs_are : q.job_chan.items ≡ p.job_chan.items = ground (arith, c.no_retry, e) in
      main-work saving_retries saving_failures now (ground (arith, c.no_retry, e))
        (ground (arith, c.no_retry, e)) (rw jobs_are (omega arith)) (omega arith)
  main_step-work c f v saved saving_failures now late e =
      let jobs_are : q.job_chan.items ≡ p.job_chan.items = ground (arith, c.no_failure, e) in
      main-work saving_failures waiting_retries now (ground (arith, c.no_failure, e))
        (ground (arith, c.no_failure, e)) (rw jobs_are (omega arith)) (omega arith)
  main_step-work c f v saved waiting_retries now late e =
      let jobs_are : q.job_chan.items ≡ p.job_chan.items = ground (arith, e) in
      main-work waiting_retries halted now (ground (arith, e)) (ground (arith, e))
        (rw jobs_are (omega arith)) (omega arith)
  main_step-work c f v saved halted now late e = cc
