-- ===== src/Tests/RestartRuns.antt =====
-- A job that was saved at a shutdown is found by the search of the next start.
use bridge_core.Prelude.{
  ℕ, ◌≡◌, ◌≤◌, ◌⊎◌, ◌+◌, ◌*◌, ◌==◌, refl, some, List, [], ◌∷◌, length, weigh, arith, String,
  get_elem?,
}
use bridge_core.Prelude.Int.{int32}
use bridge_core.Types.{Listener, callback_handler}
use bridge_core.Models.{JobRow}
use bridge_core.Job.Base.{new_base_job, row_of}
use bridge_core.Stores.Jobs.{search_jobs, search_query}
use bridge_core.Controller.Pending.Rows.{request, is_invalid}
use bridge_core.Controller.Pending.Restart.{saved_row, search_jobs-saved_row}
use bridge_core.Tests.Samples.{job_numbered, quiet_listener}
use bridge_core.Tests.JobRows.{unary, unary-IsCodec}
use bridge_core.Tests.PendingRuns.{working}
use bridge_core.Tests.StoreRuns.{list_table, list_table-IsTable, list_table-rows}

abbrev ronin : List (String × Listener)
ronin = ("Ronin", quiet_listener) ∷ []

abbrev left_job : JobRow
left_job = saved_row working unary 90 12 (job_numbered 0)

left_found :
    search_jobs list_table (request working ronin 100) (left_job ∷ []) ≡ some (left_job ∷ [])
unfolding search_jobs search_query row_of
left_found = refl

left_there : get_elem? (list_table-IsTable.rows (left_job ∷ [])) 0 ≡ some left_job
left_there = rw (list_table-rows (left_job ∷ [])) refl

search_jobs-saved_row_example :
    (((w : JobRow → ℕ) → w left_job ≤ weigh w (left_job ∷ [])) ⊎ (length (left_job ∷ []) ≡ 200))
    × (new_base_job unary 300 quiet_listener left_job (job_numbered 0).tx
        ≡ some (record (job_numbered 0) {
          id = int32 12;
          created_at = 90;
          max_try = 20;
          next_try = 300 + 0 * 5;
          back_off = 5;
        }))
    × (is_invalid left_job ≡ (◌==◌ 0 callback_handler))
search_jobs-saved_row_example =
    search_jobs-saved_row working unary list_table list_table-IsTable unary-IsCodec ronin 100 90 300
      12 0 (job_numbered 0) (left_job ∷ []) (left_job ∷ []) (omega arith) refl left_there left_found
