-- ===== src/Controller/Pending/Rows.antt =====
-- processPendingJobs. The database, the circuit breaker, the pool and the context of the controller
-- live in a world that the code only reaches through their methods; a method returns the world after
-- the call. The errors of the updates are only logged, so that an update is a world.
use bridge_core.Prelude.{
  ℕ, zero, suc, String, Bool, true, false, ◌&&◌, Option, none, some, List, [], ◌∷◌, ◌==◌,
  if◌then◌else◌,
}
use bridge_core.Prelude.Map.{string_eq, lookup}
use bridge_core.Types.{Listener, callback_handler}
use bridge_core.Models.{JobRow}
use bridge_core.Models.Status.{pending, failed, processed}
use bridge_core.Stores.Jobs.{SearchJobs}

-- What cb.Execute returns: ErrOpenState, or the job that the function made, if it made one.
pub data Execution (J : Type 0) : Type 0 where
  open_state : Execution J
  executed : Option J → Execution J

pub record World (W J : Type 0) : Type 1 where
  pub is_done : W → Bool  -- of the controller's context
  pub search_jobs : SearchJobs → W → W × Option (List JobRow)
  pub update : JobRow → W → W  -- by the controller's job store
  pub listener_update : Listener → JobRow → W → W  -- by the listener's
  pub new_job_from_db : Listener → JobRow → W → W × Option J
  pub execute : (W → W × Option J) → W → W × Execution J
  pub enqueue : J → W → W

-- `job.Type == CallbackHandler && job.Method == ""`
abbrev pub is_invalid : JobRow → Bool
is_invalid r = (r.job_type == callback_handler) && string_eq.beq r.method ""

abbrev pub names : List (String × Listener) → List String
names [] = []
names ((key, l) ∷ ls) = l.listener_name ∷ names ls

abbrev pub is_empty : List String → Bool
is_empty [] = true
is_empty _ = false

module _ {W J : Type 0} (world : World W J) (listeners : List (String × Listener)) where
  -- The job of a row, if there is one, is enqueued, and the row is processed.
  abbrev pub enqueue_built : JobRow → W × Execution J → W × Bool
  enqueue_built r (w, open_state) = (w, false)
  enqueue_built r (w, executed none) = (w, true)
  enqueue_built r (w, executed (some j)) =
      (world.update (record r { status = processed }) (world.enqueue j w), true)

  -- One row for a listener; the flag says whether the loop over the rows goes on.
  unfoldable pub listener_row : Listener → JobRow → W → W × Bool
  listener_row l r w =
      if l.is_disabled
      then (w, true)
      else (if is_invalid r
          then (world.listener_update l (record r { status = failed }) w, true)
          else enqueue_built r (world.execute (world.new_job_from_db l r) w))

  unfoldable pub pending_row : JobRow → W → W × Bool
  unfolding listener_row
  pending_row r w = elim (lookup r.listener listeners) [
    | none ↦ (w, true)
    | some l ↦ listener_row l r w
  ]

  abbrev pub go_on : (W → W) → W × Bool → W
  go_on rest (w, true) = rest w
  go_on rest (w, false) = w

  -- for _, job := range jobs { ... }
  unfoldable pub pending_rows : List JobRow → W → W
  unfolding pending_row
  pending_rows [] w = w
  pending_rows (r ∷ rs) w = go_on (pending_rows rs) (pending_row r w)

  abbrev pub request : ℕ → SearchJobs
  request processing_frame = record {
    status = pending;
    limit = 200;
    max_created_at = processing_frame;
    listeners = names listeners;
  }

  -- The body of the outer loop after the search; an error gives no rows.
  abbrev pub after_search : (W → Option W) → W × Option (List JobRow) → Option W
  after_search again (w, none) = some w
  after_search again (w, some []) = some w
  after_search again (w, some (r ∷ rs)) = again (pending_rows (r ∷ rs) w)

  -- The outer loop, on fuel; `none` if the fuel runs out.
  unfoldable pub pending_loop : ℕ → ℕ → W → Option W
  unfolding pending_rows
  pending_loop processing_frame zero w = none
  pending_loop processing_frame (suc fuel) w =
      if world.is_done w
      then some w
      else after_search (pending_loop processing_frame fuel)
          (world.search_jobs (request processing_frame) w)

  unfoldable pub process_pending_jobs : ℕ → ℕ → W → Option W
  unfolding pending_loop
  process_pending_jobs processing_frame fuel w =
      if is_empty (names listeners) then some w else pending_loop processing_frame fuel w
