-- ===== src/Controller/Delivered.antt =====
-- From the chain to the end of the pool: processBatchLogs hands jobs to Enqueue, and the pool's
-- goroutines take them from there.
use bridge_core.Pool.Safety.Start.{fresh_pool}
use bridge_core.Types.{JobHandler, Log, Listener}
use bridge_core.Pool.State.{Pool, Config, halted}
use bridge_core.Controller.Batch.Jobs.{jobs_of, enqueued_jobs}
use bridge_core.Pool.Conservation.Weights.{IsStable, gained}
use bridge_core.Controller.Filters.{add_subscriptions, Filters, no_filters}
use bridge_core.Pool.Shutdown.Calm.{IsCalmEvent}
use bridge_core.Prelude.Outcome.{returns}
use bridge_core.Controller.Batch.Coverage.{process_batch_logs_lem, AnswersFrom, logs_between}
use bridge_core.Pool.Shutdown.Accounts.{calm-accounts}
use bridge_core.Controller.Logs.{LogTools}
use bridge_core.Prelude.{
  List, ℕ, ◌++◌, ◌^◌, ◌-◌, All, ap, some, ◌≡◌, ◌+◌, ◌∙◌, ◌∷◌, String, none, weigh-append, arith,
  refl, ◌≤◌, ◌<◌, [], weigh, subst,
}
use bridge_core.Controller.Batch.Loop.{Node, BatchState, process_batch_logs}
use bridge_core.Pool.System.{
  Event, enqueues, passes, cancels, main_moves, worker_moves, retrier_moves, Run,
}

module _ {J : Type 0} where
  -- The jobs of the calls of Enqueue from outside, oldest first; a schedule has its last event first.
  abbrev pub enqueued_by : List (Event J) → List J
  enqueued_by [] = []
  enqueued_by (enqueues saved (some job) ∷ es) = enqueued_by es ++ job ∷ []
  enqueued_by (_ ∷ es) = enqueued_by es

  weigh-enqueued_by :
      (w : J → ℕ) (es : List (Event J)) → weigh (gained w) es ≡ weigh w (enqueued_by es)
  weigh-enqueued_by w [] = refl
  weigh-enqueued_by w (enqueues saved none ∷ es) = omega (arith, weigh-enqueued_by w es)
  weigh-enqueued_by w (enqueues saved (some job) ∷ es) =
      omega (arith, weigh-enqueued_by w es, weigh-append w (enqueued_by es) (job ∷ []))
  weigh-enqueued_by w (passes n ∷ es) = omega (arith, weigh-enqueued_by w es)
  weigh-enqueued_by w (cancels ∷ es) = omega (arith, weigh-enqueued_by w es)
  weigh-enqueued_by w (main_moves c saved ∷ es) = omega (arith, weigh-enqueued_by w es)
  weigh-enqueued_by w (worker_moves v saved i ∷ es) = omega (arith, weigh-enqueued_by w es)
  weigh-enqueued_by w (retrier_moves wake saved i ∷ es) = omega (arith, weigh-enqueued_by w es)

module _ {J : Type 0} (tools : LogTools J) (node : Node) (hex_to_address : String → ℕ)
    (listener : Listener) (batch_size : ℕ) (chain : ℕ → List Log) where
  -- Let a node that answers from a chain be asked by a call of processBatchLogs whose heights do not
  -- wrap around, and let its calls of Enqueue be, in their order, those of a schedule of the pool that
  -- NewWithContext sets up, in which every processed job succeeds. When Start has returned, the jobs
  -- of the chain's logs between the first height and the one that processBatchLogs returned, weighed
  -- by anything that the pool does not change, are those that were completed and those that were
  -- handed to the database as pending.
  pub process_batch_logs-completed :
      (h : JobHandler J) (w : J → ℕ) (now : ℕ) (cfg : Config) (chain_id from to : ℕ) (f : Filters)
      {r : BatchState J} {q : Pool J} {es : List (Event J)}
      → IsStable h w
      → node.get_chain_id ≡ some chain_id
      → add_subscriptions hex_to_address listener.subscriptions no_filters ≡ returns f
      → AnswersFrom chain f node
      → to + batch_size < 2 ^ 64
      → from ≤ to
      → process_batch_logs tools node hex_to_address listener batch_size from to ≡ some (returns r)
      → All IsCalmEvent es
      → Run h (fresh_pool J now cfg) es q
      → enqueued_by es ≡ enqueued_jobs r.trace
      → q.main ≡ halted
      → weigh w q.ledger.completed + weigh w q.ledger.pending_rows + weigh w q.ledger.unsaved
        ≡ weigh w
            (jobs_of tools chain_id f.event_ids (logs_between chain from (r.from_height - from)))
  process_batch_logs-completed h w now cfg chain_id from to f {r} {q} {es} stable known built
        answers fits ordered ran calm run same over =
      let (s, ran', above, below, ends, covers, jobs) =
        process_batch_logs_lem tools node hex_to_address listener batch_size chain chain_id from to
          f known built answers fits ordered in
      let is : s ≡ r = cc in
      let given : enqueued_by es
          ≡ jobs_of tools chain_id f.event_ids (logs_between chain from (r.from_height - from)) =
        same
        ∙ subst
            (λ (x : BatchState J).
              enqueued_jobs x.trace
              ≡ jobs_of tools chain_id f.event_ids (logs_between chain from (x.from_height - from)))
            is jobs in
      calm-accounts h w stable now cfg calm run over ∙ weigh-enqueued_by w es ∙ ap (weigh w) given
