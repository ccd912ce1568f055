-- ===== src/Controller/Pending/Stuck.antt =====
-- Rows that the outer loop finds again and again.
use bridge_core.Prelude.{
  ℕ, zero, suc, ◌≡◌, ◌∙◌, refl, ap, String, true, false, none, some, List, [], ◌∷◌, All, ◌⊎◌, inl,
  inr, arith,
}
use bridge_core.Prelude.Map.{string_eq, lookup}
use bridge_core.Types.{Listener}
use bridge_core.Models.{JobRow}
use bridge_core.Controller.Pending.Rows.{
  World, open_state, is_invalid, listener_row, pending_row, pending_rows, enqueue_built, request,
  pending_loop,
}

-- The row's listener is not there, or it is disabled.
abbrev pub IsSkipped : List (String × Listener) → JobRow → Type 0
IsSkipped listeners r =
    (lookup r.listener listeners ≡ none)
    ⊎ ((l : Listener) × (lookup r.listener listeners ≡ some l) × (l.is_disabled ≡ true))

module _ {W J : Type 0} (world : World W J) (listeners : List (String × Listener))
    (processing_frame : ℕ) where
  disabled_row :
      (l : Listener) (r : JobRow) (w : W)
      → l.is_disabled ≡ true
      → listener_row world listeners l r w ≡ (w, true)
  unfolding listener_row
  disabled_row l r w disabled = ground (arith, disabled)

  skipped_row :
      (r : JobRow) (w : W) → IsSkipped listeners r → pending_row world listeners r w ≡ (w, true)
  unfolding pending_row
  skipped_row r w (inl unknown) = rw (unknown, pending_row) refl
  skipped_row r w (inr (l, known, disabled)) = rw (known, pending_row) (disabled_row l r w disabled)

  skipped_rows :
      (rs : List JobRow) (w : W)
      → All (IsSkipped listeners) rs
      → pending_rows world listeners rs w ≡ w
  unfolding pending_rows
  skipped_rows [] w skipped = refl
  skipped_rows (r ∷ rs) w skipped =
      rw (skipped_row r w skipped.0, pending_rows) (skipped_rows rs w skipped.1)

  repeats :
      (fuel : ℕ) (w : W) (r : JobRow) (rs : List JobRow)
      → world.is_done w ≡ false
      → world.search_jobs (request world listeners processing_frame) w ≡ (w, some (r ∷ rs))
      → pending_rows world listeners (r ∷ rs) w ≡ w
      → pending_loop world listeners processing_frame fuel w ≡ none
  unfolding pending_loop
  repeats zero w r rs running found same = refl
  repeats (suc fuel) w r rs running found same =
      rw (running, found)
        (ap (pending_loop world listeners processing_frame fuel) same
          ∙ repeats fuel w r rs running found same)

  -- When all the pending rows that a search gives belong to listeners that are not there or are
  -- disabled, and the search leaves the world as it is, the outer loop does not end by any number of
  -- rounds, as long as the context is not done.
  pub pending_loop-skipped :
      (fuel : ℕ) (w : W) (r : JobRow) (rs : List JobRow)
      → world.is_done w ≡ false
      → world.search_jobs (request world listeners processing_frame) w ≡ (w, some (r ∷ rs))
      → All (IsSkipped listeners) (r ∷ rs)
      → pending_loop world listeners processing_frame fuel w ≡ none
  pending_loop-skipped fuel w r rs running found skipped =
      repeats fuel w r rs running found (skipped_rows (r ∷ rs) w skipped)

  open_row :
      (l : Listener) (r : JobRow) (w : W)
      → l.is_disabled ≡ false
      → is_invalid r ≡ false
      → world.execute (world.new_job_from_db l r) w ≡ (w, open_state)
      → listener_row world listeners l r w ≡ (w, false)
  unfolding listener_row
  open_row l r w enabled valid opened =
      let entry : listener_row world listeners l r w
          ≡ enqueue_built world listeners r (world.execute (world.new_job_from_db l r) w) =
        ground (arith, enabled, valid) in
      entry ∙ ap (enqueue_built world listeners r) opened

  open_known_row :
      (l : Listener) (r : JobRow) (w : W)
      → lookup r.listener listeners ≡ some l
      → listener_row world listeners l r w ≡ (w, false)
      → pending_row world listeners r w ≡ (w, false)
  unfolding pending_row
  open_known_row l r w known opened = rw (known, pending_row) opened

  -- While the circuit breaker is open and nothing else moves, the break at the first row for an
  -- enabled listener leaves the loop over the rows only: the outer loop does not end by any number of
  -- rounds, as long as the context is not done.
  pub pending_loop-open :
      (fuel : ℕ) (w : W) (l : Listener) (r : JobRow) (rs : List JobRow)
      → world.is_done w ≡ false
      → world.search_jobs (request world listeners processing_frame) w ≡ (w, some (r ∷ rs))
      → lookup r.listener listeners ≡ some l
      → l.is_disabled ≡ false
      → is_invalid r ≡ false
      → world.execute (world.new_job_from_db l r) w ≡ (w, open_state)
      → pending_loop world listeners processing_frame fuel w ≡ none
  unfolding pending_rows
  pending_loop-open fuel w l r rs running found known enabled valid opened =
      repeats fuel w r rs running found
        (rw (open_known_row l r w known (open_row l r w enabled valid opened), pending_rows) refl)
