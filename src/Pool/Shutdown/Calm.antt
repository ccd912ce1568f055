-- ===== src/Pool/Shutdown/Calm.antt =====
-- A pool whose jobs all succeed: no worker fails or panics, and nothing is ever retried.
use bridge_core.Pool.Workers.{succeeds}
use bridge_core.Pool.State.{
  Pool, WorkerPc, Worker, waiting_worker, processing, failing, retrying, registering, receiving,
  stopped, exited,
}
use bridge_core.Prelude.{
  ℕ, All-set, some, inr, get_elem?, ◌∙◌, ◌==◌, All, get_elem?-set_other, inl, ◌≡◌, ◌≤◌, List, false,
  Bool, Bool-cases, true, [], set, get_elem?-set_same, arith, subst, sym,
}
use bridge_core.Pool.System.{Event, worker_moves}

module _ {J : Type 0} where
  -- If a worker processes a job, the job succeeds.
  abbrev pub IsCalmEvent : Event J → Type 0
  IsCalmEvent (worker_moves v saved i) = v ≡ succeeds
  IsCalmEvent _ = Unit {0}

  abbrev pub is_calm : WorkerPc J → Bool
  is_calm registering = true
  is_calm receiving = true
  is_calm (processing job) = true
  is_calm (failing job) = false
  is_calm (retrying job) = false
  is_calm stopped = true
  is_calm exited = false

  abbrev pub IsCalm : Worker J → Type 0
  IsCalm k = (is_calm k.pc ≡ true) × (1 ≤ k.worker_chan.cap)

  -- There is a worker at the index, and its channel is closed.
  pub record ClosedAt (ks : List (Worker J)) (i : ℕ) : Type 0 where
    pub worker : Worker J
    pub is_at : get_elem? ks i ≡ some worker
    pub is_closed : worker.worker_chan.closed ≡ true

  pub record Calm (p : Pool J) : Type 0 where
    pub all_calm : All IsCalm p.workers
    pub no_retry : p.retry_job_chan.items ≡ []
    pub no_failure : p.failed_job_chan.items ≡ []
    pub no_retrier : p.retriers ≡ []
    pub none_counted : p.wait_group ≡ 0
    pub no_failed_row : p.ledger.failed_rows ≡ []
    pub none_dropped : p.ledger.dropped ≡ []
    pub none_crashed : p.ledger.crashed ≡ []
    pub waits_closed : (i : ℕ) → p.main ≡ waiting_worker i → ClosedAt p.workers i

  -- Two pools agree on what is retried and on what failed.
  pub record Quiet (p q : Pool J) : Type 0 where
    pub same_retry : q.retry_job_chan.items ≡ p.retry_job_chan.items
    pub same_failed : q.failed_job_chan.items ≡ p.failed_job_chan.items
    pub same_retriers : q.retriers ≡ p.retriers
    pub same_group : q.wait_group ≡ p.wait_group
    pub same_failed_rows : q.ledger.failed_rows ≡ p.ledger.failed_rows
    pub same_dropped : q.ledger.dropped ≡ p.ledger.dropped
    pub same_crashed : q.ledger.crashed ≡ p.ledger.crashed

  pub ClosedAt-set :
      (ks : List (Worker J)) (i j : ℕ) (k k' : Worker J)
      → get_elem? ks i ≡ some k
      → k'.worker_chan.closed ≡ k.worker_chan.closed
      → ClosedAt ks j
      → ClosedAt (set ks i k') j
  ClosedAt-set ks i j k k' at keeps c = elim (Bool-cases (i == j)) [
    | inr other ↦ record {
      worker = c.worker;
      is_at = get_elem?-set_other ks i j k' other ∙ c.is_at;
      is_closed = c.is_closed;
    }
    | inl same ↦ record {
      worker = k';
      is_at =
          subst (λ n. get_elem? (set ks i k') n ≡ some k') (ground (arith, same))
            (get_elem?-set_same ks i k k' at);
      is_closed =
          let here : k ≡ c.worker = ground (arith, same, at, c.is_at) in
          keeps ∙ subst (λ (x : Worker J). x.worker_chan.closed ≡ true) (sym here) (c.is_closed);
    }
  ]

  module _ (p q : Pool J) (s : Quiet p q) (c : Calm p) where
    -- A step that leaves the workers alone.
    pub Calm-main :
        q.workers ≡ p.workers
        → ((i : ℕ) → q.main ≡ waiting_worker i → ClosedAt p.workers i)
        → Calm q
    Calm-main workers_are closed = record {
      all_calm = rw workers_are (c.all_calm);
      no_retry = s.same_retry ∙ c.no_retry;
      no_failure = s.same_failed ∙ c.no_failure;
      no_retrier = s.same_retriers ∙ c.no_retrier;
      none_counted = s.same_group ∙ c.none_counted;
      no_failed_row = s.same_failed_rows ∙ c.no_failed_row;
      none_dropped = s.same_dropped ∙ c.none_dropped;
      none_crashed = s.same_crashed ∙ c.none_crashed;
      waits_closed = λ i at. rw workers_are (closed i at);
    }

    -- A step in which the worker at an index becomes another one.
    pub Calm-set :
        (i : ℕ) (k' : Worker J)
        → q.workers ≡ set p.workers i k'
        → IsCalm k'
        → ((j : ℕ) → q.main ≡ waiting_worker j → ClosedAt (set p.workers i k') j)
        → Calm q
    Calm-set i k' workers_are calm closed = record {
      all_calm = rw workers_are (All-set IsCalm p.workers i k' c.all_calm calm);
      no_retry = s.same_retry ∙ c.no_retry;
      no_failure = s.same_failed ∙ c.no_failure;
      no_retrier = s.same_retriers ∙ c.no_retrier;
      none_counted = s.same_group ∙ c.none_counted;
      no_failed_row = s.same_failed_rows ∙ c.no_failed_row;
      none_dropped = s.same_dropped ∙ c.none_dropped;
      none_crashed = s.same_crashed ∙ c.none_crashed;
      waits_closed = λ j at. rw workers_are (closed j at);
    }
