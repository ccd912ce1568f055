-- ===== src/Tests/StoreRuns.antt =====
-- Queries on small tables.
use bridge_core.Prelude.Int.{pos}
use bridge_core.Prelude.Map.{insert, lookup, string_eq}
use bridge_core.Stores.Blocks.{BlockTable, get_latest_block, save_block}
use bridge_core.Models.{ProcessedBlock, JobRow}
use bridge_core.Stores.Search.{IsTable, search_jobs_lem, meets_all, keep, wanted}
use bridge_core.Stores.Jobs.{JobTable, SearchJobs, search_jobs, search_query}
use bridge_core.Prelude.{
  ℕ, String, Option, List, All, none, drop, not, true, false, length, some, ◌∷◌, refl, ◌≤◌, take,
  [], ◌≡◌, ◌⊎◌, weigh, inr, arith, ◌+◌, take-drop, inl, weigh-append, zero, ap, ◌∙◌, sym, suc,
}

abbrev job_row : ℕ → String → ℕ → JobRow
job_row n status created_at = record {
  id = n;
  listener = "Ronin";
  subscription_name = "Deposited";
  job_type = 0;
  retry_count = 0;
  status = status;
  payload = "";
  transaction = "";
  created_at = created_at;
  from_chain_id = "";
  method = "";
}

-- A table that is its list of rows, and answers in their order.
abbrev limited : Option ℕ → List JobRow → List JobRow
limited none rs = rs
limited (some n) rs = take n rs

abbrev left_out : Option ℕ → List JobRow → List JobRow
left_out none rs = []
left_out (some n) rs = drop n rs

abbrev pub list_table : JobTable (List JobRow)
list_table = record {
  find = λ q d. some (limited q.row_limit (keep (meets_all q.clauses) d));
  save = λ r d. some (r, r ∷ d);
  updates = λ q r d. some d;
  delete = λ q d. some (keep (λ r. not (meets_all q.clauses r)) d);
  count = λ d. length d;
}

take_all_or : (n : ℕ) (xs : List JobRow) → (drop n xs ≡ []) ⊎ (length (take n xs) ≡ n)
take_all_or zero xs = inr refl
take_all_or (suc n) [] = inl refl
take_all_or (suc n) (x ∷ xs) = elim (take_all_or n xs) [
  | inl all ↦ inl all
  | inr full ↦ inr (omega (arith, full))
]

length-take-le : (n : ℕ) (xs : List JobRow) → length (take n xs) ≤ n
length-take-le zero xs = omega arith
length-take-le (suc n) [] = omega arith
length-take-le (suc n) (x ∷ xs) = omega (arith, length-take-le n xs)

list_finds :
    (o : Option ℕ) (whole rs : List JobRow)
    → limited o whole ≡ rs
    → (rest : List JobRow) × ((w : JobRow → ℕ) → weigh w rs + weigh w rest ≡ weigh w whole)
      × ((rest ≡ []) ⊎ (o ≡ some (length rs)))
      × ((n : ℕ) → o ≡ some n → length rs ≤ n)
list_finds none whole rs e = rw (sym e) ([], (λ w. omega arith), inl refl, λ n e'. cc)
list_finds (some n) whole rs e = rw (sym e) (
  drop n whole,
  (λ w. sym (weigh-append w (take n whole) (drop n whole)) ∙ ap (weigh w) (take-drop n whole)),
  elim (take_all_or n whole) [ inl all ↦ inl all | inr full ↦ inr (rw full refl) ],
  λ m e'. ground (arith, e', length-take-le n whole),
)

pub list_table-IsTable : IsTable list_table
list_table-IsTable = record {
  rows = λ d. d;
  finds = λ q d rs e. list_finds q.row_limit (keep (meets_all q.clauses) d) rs (ground (arith, e));
}

pub list_table-rows : (d : List JobRow) → list_table-IsTable.rows d ≡ d
unfolding list_table-IsTable
list_table-rows d = refl

abbrev request : SearchJobs
request = record { status = "pending"; limit = 2; max_created_at = 100; listeners = "Ronin" ∷ [] }

abbrev rows : List JobRow
rows = job_row 1 "pending" 5 ∷ job_row 2 "done" 6 ∷ job_row 3 "pending" 100 ∷ []

search_run : search_jobs list_table request rows ≡ some (job_row 1 "pending" 5 ∷ [])
unfolding search_jobs search_query
search_run = refl

search_jobs_lem_example :
    All (λ r. wanted request r ≡ true) (job_row 1 "pending" 5 ∷ [])
    × ((request.limit ≡ 0) ⊎ (length (job_row 1 "pending" 5 ∷ []) ≤ request.limit))
    × (((w : JobRow → ℕ)
          → weigh w (job_row 1 "pending" 5 ∷ [])
            ≡ weigh w (keep (wanted request) (list_table-IsTable.rows rows)))
        ⊎ (length (job_row 1 "pending" 5 ∷ []) ≡ request.limit))
search_jobs_lem_example =
    search_jobs_lem list_table list_table-IsTable request rows (job_row 1 "pending" 5 ∷ [])
      search_run

abbrev put_block : ProcessedBlock → List (String × ProcessedBlock) → List (String × ProcessedBlock)
put_block b m = insert b.chain_id b m

abbrev block_table : BlockTable (List (String × ProcessedBlock))
block_table = record { upsert = λ b m. some (put_block b m); first_with_id = λ k m. lookup k m }

abbrev row_at : ℕ → ProcessedBlock
row_at h = record { chain_id = "0x1"; block = h }

-- A second save replaces the height.
saved_run : save_block block_table "0x1" 7 (("0x1", row_at 5) ∷ []) ≡ some (("0x1", row_at 7) ∷ [])
unfolding save_block
saved_run = refl

latest_run : get_latest_block block_table "0x1" (("0x1", row_at 7) ∷ []) ≡ (pos 7, false)
unfolding get_latest_block
latest_run = refl
