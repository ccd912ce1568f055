-- ===== src/Stores/Search.antt =====
-- What SearchJobs finds in a table that honours its clauses.
use bridge_core.Prelude.Map.{string_eq}
use bridge_core.Models.{JobRow}
use bridge_core.Stores.Jobs.{
  Clause, JobTable, search_query, listener_in, id_is, created_before, status_is, is_empty_list,
  status_in, created_until, Query, SearchJobs, search_jobs,
}
use bridge_core.Prelude.{
  ℕ, ◌+◌, String, List, Bool-cases, All, inl, leb, ◌≤◌, length, ◌≡◌, false, ◌∷◌, ltb, ◌==◌, ◌||◌,
  Bool, refl, some, true, arith, ◌⊎◌, inr, if◌then◌else◌, ◌&&◌, weigh, [], none, ◌∙◌, ap,
}

abbrev pub is_in : String → List String → Bool
is_in s [] = false
is_in s (t ∷ ts) = string_eq.beq s t || is_in s ts

-- What a condition says of a row, in SQL.
abbrev pub meets : Clause → JobRow → Bool
meets (id_is n) r = r.id == n
meets (status_is s) r = string_eq.beq r.status s
meets (status_in ss) r = is_in r.status ss
meets (created_before t) r = ltb r.created_at t
meets (created_until t) r = leb r.created_at t
meets (listener_in ls) r = is_in r.listener ls

abbrev pub meets_all : List Clause → JobRow → Bool
meets_all [] r = true
meets_all (c ∷ cs) r = meets c r && meets_all cs r

abbrev pub keep : (JobRow → Bool) → List JobRow → List JobRow
keep p [] = []
keep p (r ∷ rs) = let rest = keep p rs in if p r then r ∷ rest else rest

-- A table with rows: a search finds rows that meet its clauses, in an order of its own, and all of
-- them unless the limit is reached. What it leaves out is `rest`; a list is compared by its weights,
-- which do not see the order.
pub record IsTable {D : Type 0} (table : JobTable D) : Type 0 where
  pub rows : D → List JobRow
  pub finds :
      (q : Query) (d : D) (rs : List JobRow)
      → table.find q d ≡ some rs
      → (rest : List JobRow) × ((w : JobRow → ℕ)
          → weigh w rs + weigh w rest ≡ weigh w (keep (meets_all q.clauses) (rows d)))
        × ((rest ≡ []) ⊎ (q.row_limit ≡ some (length rs)))
        × ((n : ℕ) → q.row_limit ≡ some n → length rs ≤ n)

-- Which rows a request asks for; an empty field asks for all.
abbrev pub wanted : SearchJobs → JobRow → Bool
wanted req r =
    (string_eq.beq req.status "" || string_eq.beq r.status req.status)
    && (req.max_created_at == 0 || ltb r.created_at req.max_created_at)
    && (is_empty_list req.listeners || is_in r.listener req.listeners)

in_list :
    (ls : List String) (r : JobRow)
    → (if ltb 0 (length ls) then is_in r.listener ls else true)
      ≡ (is_empty_list ls || is_in r.listener ls)
in_list [] r = refl
in_list (l ∷ ls) r = ground arith

-- The clauses that SearchJobs builds ask for the wanted rows.
search_query-meets :
    (req : SearchJobs) (r : JobRow) → meets_all (search_query req).clauses r ≡ wanted req r
unfolding search_query
search_query-meets req r = elim (Bool-cases (string_eq.beq req.status "")) [
  | inl any ↦ ground (arith, any, in_list req.listeners r)
  | inr one ↦ ground (arith, one, in_list req.listeners r)
]

keep-ext :
    (p p' : JobRow → Bool) (rs : List JobRow) → ((r : JobRow) → p r ≡ p' r) → keep p rs ≡ keep p' rs
keep-ext p p' [] same = refl
keep-ext p p' (r ∷ rs) same = let rest = keep-ext p p' rs same in ground (arith, same r, rest)

-- The weight of the rows that are not wanted.
abbrev unwanted : SearchJobs → JobRow → ℕ
unwanted req r = if wanted req r then 0 else 1

unwanted-keep :
    (req : SearchJobs) (rs : List JobRow) → weigh (unwanted req) (keep (wanted req) rs) ≡ 0
unwanted-keep req [] = refl
unwanted-keep req (r ∷ rs) = elim (Bool-cases (wanted req r)) [
  | inl yes_wanted ↦
      let light : unwanted req r ≡ 0 = rw yes_wanted refl in
      rw yes_wanted (omega (arith, light, unwanted-keep req rs))
  | inr not_wanted ↦ rw not_wanted (unwanted-keep req rs)
]

weigh-All :
    (req : SearchJobs) (rs : List JobRow)
    → weigh (unwanted req) rs ≡ 0
    → All (λ r. wanted req r ≡ true) rs
weigh-All req [] e = tt
weigh-All req (r ∷ rs) e = elim (Bool-cases (wanted req r)) [
  | inl yes_wanted ↦ (yes_wanted, weigh-All req rs (omega arith))
  | inr not_wanted ↦
      let heavy : unwanted req r ≡ 1 = rw not_wanted refl in absurd (omega (arith, heavy, e))
]

no_rest :
    (rs rest whole : List JobRow) (w : JobRow → ℕ)
    → rest ≡ []
    → weigh w rs + weigh w rest ≡ weigh w whole
    → weigh w rs ≡ weigh w whole
no_rest rs rest whole w empty sum = let none_left : weigh w rest ≡ 0 = rw empty refl in omega arith

search_query-limit :
    (req : SearchJobs)
    → (search_query req).row_limit ≡ (if ltb 0 req.limit then some req.limit else none)
unfolding search_query
search_query-limit req = ground arith

module _ {D : Type 0} (table : JobTable D) (t : IsTable table) where
  -- In a table that honours the clauses and the limit of a query, SearchJobs finds only rows with the
  -- status, the creation time and the listener that the request asks for, no more of them than a
  -- limit that is set, and, unless it finds as many as the limit, each of these rows of the table as
  -- often as the table has it.
  pub search_jobs_lem :
      (req : SearchJobs) (d : D) (rs : List JobRow)
      → search_jobs table req d ≡ some rs
      → All (λ r. wanted req r ≡ true) rs
        × ((req.limit ≡ 0) ⊎ (length rs ≤ req.limit))
        × (((w : JobRow → ℕ) → weigh w rs ≡ weigh w (keep (wanted req) (t.rows d)))
            ⊎ (length rs ≡ req.limit))
  unfolding search_jobs search_query
  search_jobs_lem req d rs found =
      let (rest, parts, full, few) = t.finds (search_query req) d rs found in
      let same : keep (meets_all (search_query req).clauses) (t.rows d)
          ≡ keep (wanted req) (t.rows d) =
        keep-ext _ _ (t.rows d) (search_query-meets req) in
      let split : (w : JobRow → ℕ)
          → weigh w rs + weigh w rest ≡ weigh w (keep (wanted req) (t.rows d)) =
        λ w. parts w ∙ ap (weigh w) same in
      (
        weigh-All req rs (omega (arith, split (unwanted req), unwanted-keep req (t.rows d))),
        elim (Bool-cases (ltb 0 req.limit)) [
          | inl set ↦ inr (few req.limit (search_query-limit req ∙ rw set refl))
          | inr unset ↦ inl (ground (arith, unset))
        ],
        elim full [
          | inl nothing_left ↦
              inl (λ w. no_rest rs rest (keep (wanted req) (t.rows d)) w nothing_left (split w))
          | inr reached ↦ inr (ground (arith, reached, search_query-limit req))
        ],
      )
