-- ===== src/Stores/Jobs.antt =====
-- stores/job.go. The database is a parameter: a query is the data that the code builds for it, a
-- chain of clauses with a limit and an order, and the methods of gorm take it. Creation times and
-- limits are not negative.
use bridge_core.Prelude.{
  ℕ, String, Bool, Option, none, some, List, [], ◌∷◌, ◌++◌, ltb, length, if◌then◌else◌, true, false,
}
use bridge_core.Prelude.Map.{string_eq}
use bridge_core.Models.{JobRow}
use bridge_core.Models.Status.{pending}

pub record SearchJobs : Type 0 where
  pub status : String
  pub limit : ℕ
  pub max_created_at : ℕ
  pub listeners : List String

-- The conditions of Where.
pub data Clause : Type 0 where
  id_is : ℕ → Clause  -- "id = ?"
  status_is : String → Clause  -- "status = ?"
  status_in : List String → Clause  -- "status in ?"
  created_before : ℕ → Clause  -- "created_at < ?"
  created_until : ℕ → Clause  -- "created_at <= ?"
  listener_in : List String → Clause  -- "listener in ?"

pub record Query : Type 0 where
  pub clauses : List Clause
  pub row_limit : Option ℕ
  pub order : Option String

abbrev pub all_jobs : Query
all_jobs = record { clauses = []; row_limit = none; order = none }

abbrev pub where_clause : Clause → Query → Query
where_clause c q = record q { clauses = q.clauses ++ c ∷ [] }

abbrev pub limit_to : ℕ → Query → Query
limit_to n q = record q { row_limit = some n }

abbrev pub order_by : String → Query → Query
order_by text q = record q { order = some text }

-- The methods of gorm.DB on the job table; `none` is an error. A saved row comes back with its id.
pub record JobTable (D : Type 0) : Type 0 where
  pub find : Query → D → Option (List JobRow)
  pub save : JobRow → D → Option (JobRow × D)
  pub updates : Query → JobRow → D → Option D
  pub delete : Query → D → Option D
  pub count : D → ℕ

abbrev pub is_empty_list : {A : Type 0} → List A → Bool
is_empty_list [] = true
is_empty_list _ = false

-- The query of SearchJobs, in the order of its tests.
unfoldable pub search_query : SearchJobs → Query
search_query req =
    let q =
      if string_eq.beq req.status ""
      then all_jobs
      else where_clause (status_is req.status) all_jobs in
    let q' =
      if ltb 0 req.max_created_at then where_clause (created_before req.max_created_at) q else q in
    let q'' = if ltb 0 req.limit then limit_to req.limit q' else q' in
    if ltb 0 (length req.listeners) then where_clause (listener_in req.listeners) q'' else q''

module _ {D : Type 0} (table : JobTable D) where
  unfoldable pub save_row : JobRow → D → Option (JobRow × D)
  save_row row d = table.save row d

  unfoldable pub update_row : JobRow → D → Option D
  update_row row d = table.updates (where_clause (id_is row.id) all_jobs) row d

  unfoldable pub get_pending_jobs : D → Option (List JobRow)
  get_pending_jobs d =
      table.find
        (order_by "created_at + POWER(2, retry_count) * 10 ASC"
          (where_clause (status_is pending) all_jobs))
        d

  unfoldable pub search_jobs : SearchJobs → D → Option (List JobRow)
  unfolding search_query
  search_jobs req d = table.find (search_query req) d

  unfoldable pub delete_jobs : List String → ℕ → D → Option D
  delete_jobs statuses created_at d =
      table.delete
        (where_clause (created_until created_at) (where_clause (status_in statuses) all_jobs)) d

  unfoldable pub count_jobs : D → ℕ
  count_jobs d = table.count d
