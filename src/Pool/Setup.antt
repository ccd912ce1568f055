-- ===== src/Pool/Setup.antt =====
-- NewPool, AddWorkers, NewWorker and Stats, with the loop of NewWithContext that makes the workers.
-- A negative setting is treated as 0 is.
use bridge_core.Prelude.{
  ℕ, zero, suc, ◌+◌, ◌*◌, false, Option, none, some, List, [], ◌∷◌, length, ltb, ◌==◌,
  if◌then◌else◌,
}
use bridge_core.Prelude.Outcome.{Outcome, returns, panics, ◌>>=◌}
use bridge_core.Pool.Channel.{make_chan}
use bridge_core.Pool.State.{Config, Worker, registering, selecting, Pool}

abbrev pub default_workers : ℕ
default_workers = 8182

abbrev pub default_max_queue_size : ℕ
default_max_queue_size = 4096

abbrev pub default_back_off : ℕ
default_back_off = 5

abbrev pub default_max_retry : ℕ
default_max_retry = 10

abbrev or_default : ℕ → ℕ → ℕ
or_default n d = if n == 0 then d else n

unfoldable pub with_defaults : Config → Config
with_defaults cfg = record {
  number_of_workers = or_default cfg.number_of_workers default_workers;
  max_queue_size = or_default cfg.max_queue_size default_max_queue_size;
  max_retry = or_default cfg.max_retry default_max_retry;
  back_off = or_default cfg.back_off default_back_off;
}

pub record Stats : Type 0 where
  pub retryable_queue : ℕ
  pub queued : ℕ
  pub retrying_job : ℕ

module _ {J : Type 0} where
  abbrev pub bare_pool : ℕ → Config → List (Worker J) → Pool J
  bare_pool now cfg workers = record {
    config = cfg;
    job_chan = make_chan (cfg.max_queue_size * cfg.number_of_workers);
    retry_job_chan = make_chan cfg.max_queue_size;
    failed_job_chan = make_chan cfg.max_queue_size;
    queue = make_chan cfg.max_queue_size;
    workers = workers;
    retriers = [];
    number_of_retrying_job = 0;
    wait_group = 0;
    is_closed = false;
    main = selecting;
    now = now;
    cancelled = false;
    ledger = record {
      completed = [];
      pending_rows = [];
      failed_rows = [];
      unsaved = [];
      dropped = [];
      crashed = [];
    };
  }

  abbrev check_workers : ℕ → Config → Option (List (Worker J)) → Outcome (Pool J)
  check_workers now cfg none = returns (bare_pool now cfg [])
  check_workers now cfg (some workers) =
      if ltb cfg.number_of_workers (length workers)
      then panics
      else returns (bare_pool now cfg workers)

  -- NewPool; `none` is the nil list of workers.
  unfoldable pub new_pool : ℕ → Config → Option (List (Worker J)) → Outcome (Pool J)
  unfolding with_defaults
  new_pool now cfg workers = check_workers now (with_defaults cfg) workers

  unfoldable pub add_workers : Option (List (Worker J)) → Pool J → Outcome (Pool J)
  add_workers none p = panics
  add_workers (some workers) p =
      if ltb p.config.number_of_workers (length workers)
      then panics
      else returns (record p { workers = workers })

  unfoldable pub new_worker : ℕ → ℕ → Worker J
  new_worker id size = record { id = id; worker_chan = make_chan size; pc = registering }

  -- for i := from; i < from + n; i++ { workers = append(workers, NewWorker(ctx, i, size, ...)) }
  unfoldable pub new_workers : ℕ → ℕ → ℕ → List (Worker J)
  unfolding new_worker
  new_workers zero from size = []
  new_workers (suc n) from size = new_worker from size ∷ new_workers n (from + 1) size

  abbrev pub nonempty : List (Worker J) → Option (List (Worker J))
  nonempty [] = none
  nonempty (k ∷ ks) = some (k ∷ ks)

  -- The pool as NewWithContext leaves it, before Start.
  unfoldable pub set_up : ℕ → Config → Outcome (Pool J)
  unfolding new_pool add_workers new_workers
  set_up now cfg = do
    p ← new_pool now cfg none
    add_workers (nonempty (new_workers p.config.number_of_workers 0 p.config.max_queue_size)) p

  unfoldable pub stats : Pool J → Stats
  stats p = record {
    retryable_queue = length p.retry_job_chan.items;
    queued = length p.job_chan.items;
    retrying_job = p.number_of_retrying_job;
  }
