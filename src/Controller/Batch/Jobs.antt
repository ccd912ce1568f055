-- ===== src/Controller/Batch/Jobs.antt =====
-- The jobs of a list of logs, as a specification, and the loop over one answer of the node.
use bridge_core.Prelude.{
  ℕ, ◌≡◌, ◌≢◌, ◌∙◌, refl, sym, ap, String, Option, none, some, List, [], ◌∷◌, ◌++◌, map, All,
  append_assoc, append-nil, map-append,
}
use bridge_core.Prelude.Map.{lookup}
use bridge_core.Prelude.Outcome.{returns}
use bridge_core.Types.{Log}
use bridge_core.Controller.Filters.{EventMapKey, key_eq}
use bridge_core.Controller.Logs.{LogTools, Processed, log_job, add_job, process_log, process_logs}
use bridge_core.Controller.Batch.Loop.{
  Effect, filtered, filter_failed, cached, enqueued, updated, saved_current_block,
}

-- The handlers that are not nil.
abbrev pub somes : {A : Type 0} → List (Option A) → List A
somes [] = []
somes (none ∷ xs) = somes xs
somes (some a ∷ xs) = a ∷ somes xs

pub somes-append : {A : Type 0} (xs ys : List (Option A)) → somes (xs ++ ys) ≡ somes xs ++ somes ys
somes-append [] ys = refl
somes-append (none ∷ xs) ys = somes-append xs ys
somes-append (some a ∷ xs) ys = ap (◌∷◌ a) (somes-append xs ys)

-- The handlers that a trace hands to Enqueue, without the nil ones, which Enqueue ignores.
abbrev pub enqueued_jobs : {J : Type 0} → List (Effect J) → List J
enqueued_jobs [] = []
enqueued_jobs (enqueued none ∷ es) = enqueued_jobs es
enqueued_jobs (enqueued (some j) ∷ es) = j ∷ enqueued_jobs es
enqueued_jobs (_ ∷ es) = enqueued_jobs es

module _ {J : Type 0} where
  pub enqueued_jobs-append :
      (es fs : List (Effect J)) → enqueued_jobs (es ++ fs) ≡ enqueued_jobs es ++ enqueued_jobs fs
  enqueued_jobs-append [] fs = refl
  enqueued_jobs-append (enqueued none ∷ es) fs = enqueued_jobs-append es fs
  enqueued_jobs-append (enqueued (some j) ∷ es) fs = ap (◌∷◌ j) (enqueued_jobs-append es fs)
  enqueued_jobs-append (filtered a b ls ∷ es) fs = enqueued_jobs-append es fs
  enqueued_jobs-append (filter_failed a b ∷ es) fs = enqueued_jobs-append es fs
  enqueued_jobs-append (cached bs ∷ es) fs = enqueued_jobs-append es fs
  enqueued_jobs-append (updated b ∷ es) fs = enqueued_jobs-append es fs
  enqueued_jobs-append (saved_current_block ∷ es) fs = enqueued_jobs-append es fs

  pub enqueued_jobs-map :
      (js : List (Option J)) (es : List (Effect J))
      → enqueued_jobs (map enqueued js ++ es) ≡ somes js ++ enqueued_jobs es
  enqueued_jobs-map [] es = refl
  enqueued_jobs-map (none ∷ js) es = enqueued_jobs-map js es
  enqueued_jobs-map (some j ∷ js) es = ap (◌∷◌ j) (enqueued_jobs-map js es)

abbrev pub HasTopic : Log → Type 0
HasTopic l = l.topics ≢ []

module _ {J : Type 0} (tools : LogTools J) (chain_id : ℕ)
    (event_ids : List (EventMapKey × String)) where
  abbrev job_for : ℕ → Log → Option String → Option (List ℕ) → Option J
  job_for t l none payload = none
  job_for t l (some name) none = none
  job_for t l (some name) (some payload) = log_job tools chain_id event_ids t l name payload

  abbrev job_at : List ℕ → Log → Option J
  job_at [] l = none
  job_at (t ∷ ts) l =
      job_for t l (lookup (record { topic = t; contract = l.address }) event_ids) (tools.marshal l)

  -- The job of a log: there is one exactly when the log's first topic and address belong to a
  -- subscription, the log can be marshalled and the listener makes a job of it.
  abbrev pub job_of : Log → Option J
  job_of l = job_at l.topics l

  abbrev pub jobs_of : List Log → List J
  jobs_of ls = somes (map job_of ls)

  pub jobs_of-append : (xs ys : List Log) → jobs_of (xs ++ ys) ≡ jobs_of xs ++ jobs_of ys
  jobs_of-append xs ys = rw (map-append job_of xs ys, somes-append)

  add_job-somes :
      (t : ℕ) (l : Log) (name : Option String) (payload : Option (List ℕ)) (done : Processed J)
      → somes (add_job tools chain_id event_ids t l name payload done).jobs
        ≡ somes done.jobs ++ somes (job_for t l name payload ∷ [])
  add_job-somes t l none payload done = sym (append-nil _)
  add_job-somes t l (some name) none done = sym (append-nil _)
  add_job-somes t l (some name) (some payload) done = somes-append done.jobs _

  process_log-job :
      (ts : List ℕ) (l : Log) (done : Processed J)
      → ts ≢ []
      → (done' : Processed J) × (process_log tools chain_id event_ids ts l done ≡ returns done')
        × (somes done'.jobs ≡ somes done.jobs ++ somes (job_at ts l ∷ []))
  unfolding process_log
  process_log-job [] l done has = absurd (has refl)
  process_log-job (t ∷ ts) l done has = (
    add_job tools chain_id event_ids t l name (tools.marshal l) done,
    refl,
    add_job-somes t l name (tools.marshal l) done,
  )
    where
      name : Option String
      name = lookup (record { topic = t; contract = l.address }) event_ids

  pub process_logs-jobs :
      (ls : List Log) (done : Processed J)
      → All HasTopic ls
      → (done' : Processed J) × (process_logs tools chain_id event_ids ls done ≡ returns done')
        × (somes done'.jobs ≡ somes done.jobs ++ jobs_of ls)
  unfolding process_logs
  process_logs-jobs [] done has = (done, refl, sym (append-nil _))
  process_logs-jobs (l ∷ ls) done has =
      let (mid, first, jobs) = process_log-job l.topics l done has.0 in
      let (last, rest, all) = process_logs-jobs ls mid has.1 in
      (
        last,
        rw first rest,
        all
            ∙ rw (jobs, append_assoc)
                (ap (◌++◌ (somes done.jobs)) (sym (somes-append (job_of l ∷ []) (map job_of ls)))),
      )
