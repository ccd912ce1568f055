-- ===== src/Controller/Batch/Coverage.antt =====
-- The blocks that a call of processBatchLogs asks for, and the jobs that come out of them.
use bridge_core.Prelude.{
  ℕ, zero, suc, ◌+◌, ◌-◌, ◌^◌, ◌≤◌, ◌<◌, ◌≡◌, ◌≢◌, ◌⊎◌, ◌∙◌, inl, inr, refl, sym, ap, String,
  Option, Option-cases, some, List, [], ◌∷◌, ◌++◌, map, All, All-append, append_assoc, append-nil,
  arith,
}
use mathlib.Core.Path.{ap₂}
use bridge_core.Prelude.Outcome.{returns}
use bridge_core.Types.{Log, Listener}
use bridge_core.Controller.Filters.{Filters, no_filters, add_subscriptions}
use bridge_core.Controller.Logs.{LogTools, Processed, process_logs}
use bridge_core.Controller.Batch.Loop.{
  Effect, filtered, filter_failed, cached, enqueued, updated, saved_current_block, Node, BatchState,
  batch_end, batch_round, batch_loop, advance, retry_later, batch_start, batch_fuel, u64,
  process_batch_logs,
}
use bridge_core.Controller.Batch.Progress.{
  batch_end_bounds, batch_round-cases, batch_loop_inv, batch_loop_total,
}
use bridge_core.Controller.Batch.Jobs.{
  HasTopic, jobs_of, jobs_of-append, enqueued_jobs, enqueued_jobs-append, enqueued_jobs-map,
  process_logs-jobs, somes,
}

-- The answered questions of a trace cover the heights from `a` up to, and without, `b`: each begins
-- where the one before ended.
abbrev pub Covers : {J : Type 0} → ℕ → List (Effect J) → ℕ → Type 0
Covers a [] b = a ≡ b
Covers a (filtered from to logs ∷ es) b = (from ≡ a) × (from ≤ to) × Covers (to + 1) es b
Covers a (_ ∷ es) b = Covers a es b

module _ {J : Type 0} where
  Covers-append :
      (es fs : List (Effect J)) (a b c : ℕ) → Covers a es b → Covers b fs c → Covers a (es ++ fs) c
  Covers-append [] fs a b c h k = rw h k
  Covers-append (filtered x y ls ∷ es) fs a b c h k =
      (h.0, h.1, Covers-append es fs (y + 1) b c h.2 k)
  Covers-append (filter_failed x y ∷ es) fs a b c h k = Covers-append es fs a b c h k
  Covers-append (cached x ∷ es) fs a b c h k = Covers-append es fs a b c h k
  Covers-append (enqueued x ∷ es) fs a b c h k = Covers-append es fs a b c h k
  Covers-append (updated x ∷ es) fs a b c h k = Covers-append es fs a b c h k
  Covers-append (saved_current_block ∷ es) fs a b c h k = Covers-append es fs a b c h k

  Covers-map :
      (js : List (Option J)) (fs : List (Effect J)) (a b : ℕ)
      → Covers a fs b
      → Covers a (map enqueued js ++ fs) b
  Covers-map [] fs a b h = h
  Covers-map (j ∷ js) fs a b h = Covers-map js fs a b h

-- The logs of `n` blocks from the height `a` on.
abbrev pub logs_between : (ℕ → List Log) → ℕ → ℕ → List Log
logs_between chain a zero = []
logs_between chain a (suc n) = chain a ++ logs_between chain (a + 1) n

pub logs_between-add :
    (chain : ℕ → List Log) (a n m k : ℕ)
    → a + n ≡ k
    → logs_between chain a n ++ logs_between chain k m ≡ logs_between chain a (n + m)
logs_between-add chain a zero m k e =
    let e1 : k ≡ a = omega arith in let e2 : 0 + m ≡ m = omega arith in rw (e1, e2)
logs_between-add chain a (suc n) m k e =
    let e2 : suc n + m ≡ suc (n + m) = omega arith in
    rw (e2, append_assoc) (ap (◌++◌ (chain a)) (logs_between-add chain (a + 1) n m k (omega arith)))

-- The node answers from a chain whose block at each height holds certain matching logs, in order
-- and each with a topic, as eth_getLogs with a topic filter promises.
pub record AnswersFrom (chain : ℕ → List Log) (f : Filters) (node : Node) : Type 0 where
  pub faithful :
      (n a b : ℕ) (ls : List Log)
      → node.filter_logs f n a b ≡ some ls
      → ls ≡ logs_between chain a (b + 1 - a)
  pub has_topics : (h : ℕ) → All HasTopic (chain h)

logs_between-HasTopic :
    (chain : ℕ → List Log)
    → ((h : ℕ) → All HasTopic (chain h))
    → (a n : ℕ) → All HasTopic (logs_between chain a n)
logs_between-HasTopic chain has a zero = tt
logs_between-HasTopic chain has a (suc n) =
    All-append HasTopic (chain a) _ (has a) (logs_between-HasTopic chain has (a + 1) n)

abbrev no_jobs : {J : Type 0} → Processed J
no_jobs = record { processed_blocks = []; jobs = [] }

module _ {J : Type 0} (tools : LogTools J) (node : Node) (chain_id : ℕ) (f : Filters)
    (batch_size to from : ℕ) (chain : ℕ → List Log) (answers : AnswersFrom chain f node)
    (fits : to + batch_size < 2 ^ 64) where
  abbrev jobs_until : ℕ → List J
  jobs_until h = jobs_of tools chain_id f.event_ids (logs_between chain from (h - from))

  -- What every round keeps.
  record Inv (s : BatchState J) : Type 0 where
    ahead : from ≤ s.from_height
    within : s.from_height ≤ to
    few : s.retry ≤ 10
    covers : Covers from s.trace s.from_height
    jobs : enqueued_jobs s.trace ≡ jobs_until s.from_height

  answer-HasTopic :
      {n a b : ℕ} {logs : List Log} → node.filter_logs f n a b ≡ some logs → All HasTopic logs
  answer-HasTopic {n} {a} {b} {logs} got =
      rw (answers.faithful n a b logs got)
        (logs_between-HasTopic chain answers.has_topics a (b + 1 - a))

  -- The jobs of one answer.
  answer-jobs :
      (a b n : ℕ) (logs : List Log) (done : Processed J)
      → node.filter_logs f n a b ≡ some logs
      → process_logs tools chain_id f.event_ids logs no_jobs ≡ returns done
      → somes done.jobs ≡ jobs_of tools chain_id f.event_ids (logs_between chain a (b + 1 - a))
  answer-jobs a b n logs done got good =
      let (done', good', jobs) =
        process_logs-jobs tools chain_id f.event_ids logs no_jobs (answer-HasTopic got) in
      let same : done ≡ done' = cc in
      rw same (jobs ∙ ap (jobs_of tools chain_id f.event_ids) (answers.faithful n a b logs got))

  batch_round-live :
      (s : BatchState J)
      → s.from_height < to
      → (s' : BatchState J) × (batch_round tools node chain_id f batch_size to s ≡ returns s')
  unfolding batch_round
  batch_round-live s before =
      elim (Option-cases
        (node.filter_logs f s.calls s.from_height (batch_end batch_size to s.from_height))) [
          | inl failed ↦ (
            retry_later tools node chain_id f batch_size to s
                (batch_end batch_size to s.from_height),
            rw (failed, batch_round) refl,
          )
          | inr (logs, got) ↦
              let (done, good, _) =
                process_logs-jobs tools chain_id f.event_ids logs no_jobs (answer-HasTopic got) in
              (
                advance tools node chain_id f batch_size to s
                    (batch_end batch_size to s.from_height) logs done,
                rw (got, batch_round, good) refl,
              )
        ]

  batch_round-Inv :
      (s s' : BatchState J)
      → Inv s
      → s.from_height < to
      → s.retry ≢ 10
      → batch_round tools node chain_id f batch_size to s ≡ returns s'
      → Inv s'
  batch_round-Inv s s' v before left moved =
      elim (batch_round-cases tools node chain_id f batch_size to s s' moved) [
        | inl (failed, e) ↦ rw e (record {
          ahead = v.ahead;
          within = v.within;
          few = omega arith;
          covers = Covers-append s.trace _ from s.from_height s.from_height v.covers refl;
          jobs = enqueued_jobs-append s.trace _ ∙ append-nil _ ∙ v.jobs;
        })
        | inr (logs, done, got, good, e) ↦
            let end : ℕ = batch_end batch_size to s.from_height in
            let b = batch_end_bounds batch_size to s.from_height fits before in
            let next : end + 1 ≡ u64 (end + 1) = omega arith in
            let sum : s.from_height - from + (end + 1 - s.from_height) ≡ u64 (end + 1) - from =
              omega arith in
            rw e (record {
              ahead = omega arith;
              within = omega arith;
              few = v.few;
              covers =
                  Covers-append s.trace _ from s.from_height _ v.covers
                    (refl, b.0, Covers-map done.jobs _ (end + 1) _ next);
              jobs =
                  enqueued_jobs-append s.trace _
                  ∙ ap₂ ◌++◌ v.jobs (
                      enqueued_jobs-map done.jobs _
                      ∙ append-nil _
                      ∙ answer-jobs s.from_height end s.calls logs done got good)
                  ∙ sym (
                      jobs_of-append tools chain_id f.event_ids
                        (logs_between chain from (s.from_height - from))
                        (logs_between chain s.from_height (end + 1 - s.from_height)))
                  ∙ ap (jobs_of tools chain_id f.event_ids)
                      (logs_between-add chain from _ _ s.from_height (omega arith))
                  ∙ ap (λ n. jobs_of tools chain_id f.event_ids (logs_between chain from n)) sum;
            })
      ]

module _ {J : Type 0} (tools : LogTools J) (node : Node) (hex_to_address : String → ℕ)
    (listener : Listener) (batch_size : ℕ) (chain : ℕ → List Log) where
  -- Let the node answer from a chain, know its chain id, and let the listener's subscriptions have
  -- their handlers and ABIs. Then a call of processBatchLogs from one height to another not below it,
  -- where no sum of heights wraps around, returns, also when questions fail: the height that it
  -- returns lies between the two, and below the second only after ten failures; the answered questions
  -- cover every height up to the returned one once; and the jobs that it hands to the pool are those
  -- of the chain's logs at these heights, each once and in order.
  pub process_batch_logs_lem :
      (chain_id from to : ℕ) (f : Filters)
      → node.get_chain_id ≡ some chain_id
      → add_subscriptions hex_to_address listener.subscriptions no_filters ≡ returns f
      → AnswersFrom chain f node
      → to + batch_size < 2 ^ 64
      → from ≤ to
      → (r : BatchState J) × (process_batch_logs tools node hex_to_address listener batch_size from
            to
          ≡ some (returns r))
        × (from ≤ r.from_height)
        × (r.from_height ≤ to)
        × ((r.from_height ≡ to) ⊎ (r.retry ≡ 10))
        × Covers from r.trace r.from_height
        × (enqueued_jobs r.trace
            ≡ jobs_of tools chain_id f.event_ids (logs_between chain from (r.from_height - from)))
  unfolding process_batch_logs
  process_batch_logs_lem chain_id from to f known built answers fits ordered =
      let entry : process_batch_logs tools node hex_to_address listener batch_size from to
          ≡ batch_loop tools node chain_id f batch_size to
              (batch_fuel tools node hex_to_address listener batch_size from to)
              (batch_start tools node hex_to_address listener batch_size from) =
        ground (arith, known, built) in
      let (r, done) =
        batch_loop_total tools node chain_id f batch_size to
          (batch_round-live tools node chain_id f batch_size to from chain answers fits) fits
          (batch_fuel tools node hex_to_address listener batch_size from to)
          (batch_start tools node hex_to_address listener batch_size from) (omega arith)
          (omega arith) in
      let (v, over) =
        batch_loop_inv tools node chain_id f batch_size to
          (Inv tools node chain_id f batch_size to from chain answers fits)
          (batch_round-Inv tools node chain_id f batch_size to from chain answers fits)
          (batch_fuel tools node hex_to_address listener batch_size from to)
          (batch_start tools node hex_to_address listener batch_size from) r done
          (record {
            ahead = omega arith;
            within = ordered;
            few = omega arith;
            covers = refl;
            jobs = let none_yet : from - from ≡ 0 = omega arith in rw none_yet refl;
          }) in
      (
        r,
        entry ∙ done,
        v.ahead,
        v.within,
        elim over [ inl e ↦ inl (omega arith) | inr e ↦ inr e ],
        v.covers,
        v.jobs,
      )
