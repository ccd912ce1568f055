-- ===== src/Pool/Invariant/Phases.antt =====
-- How far the shutdown has come, and what is closed and empty by then.
use bridge_core.Prelude.{
  ℕ, zero, suc, ◌≤◌, ◌<◌, ◌≡◌, true, false, none, some, List, [], ◌∷◌, get_elem?, set, All, All-set,
  All-get_elem?, arith, if◌then◌else◌,
}
use bridge_core.Pool.State.{
  stopped, Worker, MainPc, selecting, dispatching, sending, closing, draining, closing_worker,
  waiting_worker, closing_channels, saving_retries, saving_failures, waiting_retries, halted, Pool,
}

module _ {J : Type 0} where
  -- The stage of the shutdown.
  abbrev pub stage : MainPc J → ℕ
  stage selecting = 0
  stage (dispatching last job) = if last then 2 else 0
  stage (sending last i job) = if last then 2 else 0
  stage closing = 1
  stage draining = 2
  stage (closing_worker k) = 3
  stage (waiting_worker k) = 3
  stage closing_channels = 4
  stage saving_retries = 5
  stage saving_failures = 6
  stage waiting_retries = 7
  stage halted = 8

  -- The workers that have been closed and waited for.
  abbrev pub finished : MainPc J → ℕ
  finished (closing_worker k) = k
  finished (waiting_worker k) = k
  finished _ = 0

  abbrev pub IsStopped : Worker J → Type 0
  IsStopped k = k.pc ≡ stopped

  abbrev pub FirstStopped : ℕ → List (Worker J) → Type 0
  FirstStopped zero ks = Unit {0}
  FirstStopped (suc n) [] = Unit {0}
  FirstStopped (suc n) (k ∷ ks) = IsStopped k × FirstStopped n ks

  -- A stopped worker has a closed and empty channel.
  abbrev pub IsDrained : Worker J → Type 0
  IsDrained k = k.pc ≡ stopped → (k.worker_chan.items ≡ []) × (k.worker_chan.closed ≡ true)

  pub record Phases (p : Pool J) : Type 0 where
    pub jobs_open : stage p.main < 2 → p.job_chan.closed ≡ false
    pub jobs_shut : 2 ≤ stage p.main → p.job_chan.closed ≡ true
    pub jobs_drained : 3 ≤ stage p.main → p.job_chan.items ≡ []
    pub retry_open : stage p.main < 5 → p.retry_job_chan.closed ≡ false
    pub failed_open : stage p.main < 5 → p.failed_job_chan.closed ≡ false
    pub queue_open : stage p.main < 5 → p.queue.closed ≡ false
    pub retry_shut : 5 ≤ stage p.main → p.retry_job_chan.closed ≡ true
    pub failed_shut : 5 ≤ stage p.main → p.failed_job_chan.closed ≡ true
    pub retry_drained : 6 ≤ stage p.main → p.retry_job_chan.items ≡ []
    pub failed_drained : 7 ≤ stage p.main → p.failed_job_chan.items ≡ []
    pub counted_down : 8 ≤ stage p.main → p.wait_group ≡ 0
    pub drained : All IsDrained p.workers
    pub first_stopped : FirstStopped (finished p.main) p.workers
    pub all_stopped : 4 ≤ stage p.main → All IsStopped p.workers

  -- Replacing a worker by one that is stopped if it was.
  module _ (ks : List (Worker J)) (i : ℕ) (k k' : Worker J) (at : get_elem? ks i ≡ some k)
      (keeps : k.pc ≡ stopped → k'.pc ≡ stopped) where
    pub All-IsStopped-set : All IsStopped ks → All IsStopped (set ks i k')
    All-IsStopped-set a = All-set IsStopped ks i k' a (keeps (All-get_elem? IsStopped ks i k a at))

  pub FirstStopped-set :
      (n : ℕ) (ks : List (Worker J)) (i : ℕ) (k k' : Worker J)
      → get_elem? ks i ≡ some k
      → (k.pc ≡ stopped → k'.pc ≡ stopped)
      → FirstStopped n ks
      → FirstStopped n (set ks i k')
  FirstStopped-set zero ks i k k' at keeps f = tt
  FirstStopped-set (suc n) [] i k k' at keeps f = tt
  FirstStopped-set (suc n) (x ∷ ks) zero k k' at keeps f = ground arith
  FirstStopped-set (suc n) (x ∷ ks) (suc i) k k' at keeps f =
      (f.0, FirstStopped-set n ks i k k' at keeps f.1)

  -- One more worker has stopped.
  pub FirstStopped-suc :
      (n : ℕ) (ks : List (Worker J)) (k : Worker J)
      → get_elem? ks n ≡ some k
      → k.pc ≡ stopped
      → FirstStopped n ks
      → FirstStopped (suc n) ks
  FirstStopped-suc n [] k at e f = tt
  FirstStopped-suc zero (x ∷ ks) k at e f = (ground arith, tt)
  FirstStopped-suc (suc n) (x ∷ ks) k at e f = (f.0, FirstStopped-suc n ks k at e f.1)

  pub FirstStopped-All :
      (n : ℕ) (ks : List (Worker J)) → get_elem? ks n ≡ none → FirstStopped n ks → All IsStopped ks
  FirstStopped-All n [] at f = tt
  FirstStopped-All zero (x ∷ ks) at f = ground arith
  FirstStopped-All (suc n) (x ∷ ks) at f = (f.0, FirstStopped-All n ks at f.1)
