-- ===== src/Controller/Launch.antt =====
-- Start of controller.go: the pool's loop is started, then processPendingJobs runs to its end, and
-- only then startListeners. The pool's loop runs beside them.
use bridge_core.Prelude.{
  ℕ, ◌≡◌, ◌≢◌, ◌++◌, ◌<◌, refl, String, Bool, Option, none, some, List, [], length, All,
}
use bridge_core.Types.{Listener}
use bridge_core.Controller.Startup.{Action, start_listeners}
use bridge_core.Controller.Startup.Waiting.{
  Settles, WasUpToDate, starts_of, listens_of, enabled, start_listeners_lem,
}
use bridge_core.Controller.Pending.Rows.{World, names, process_pending_jobs}
use bridge_core.Controller.Pending.Delivery.{Works, IsServed, valid_jobs, process_pending_jobs_lem}

-- What Start leaves: the world, the pauses made, and the calls for the listeners.
pub record Launched (W : Type 0) : Type 0 where
  pub world : W
  pub pauses : ℕ
  pub actions : List Action

module _ {W J : Type 0} (world : World W J) (listeners : List (String × Listener))
    (is_up_to_date : ℕ → Listener → Bool) where
  abbrev launched : W → Option (ℕ × List Action) → Option (Launched W)
  launched w none = none
  launched w (some (n, acts)) = some (record { world = w; pauses = n; actions = acts })

  abbrev then_listeners : ℕ → List Listener → List Listener → Option W → Option (Launched W)
  then_listeners waits ls again none = none
  then_listeners waits ls again (some w) =
      launched w (start_listeners is_up_to_date waits 0 ls again)

  -- The two lists are the listeners in the orders of the loops of startListeners; `none` if the fuel
  -- of a loop runs out.
  unfoldable pub start : ℕ → ℕ → ℕ → List Listener → List Listener → W → Option (Launched W)
  start processing_frame fuel waits ls again w =
      then_listeners waits ls again (process_pending_jobs world listeners processing_frame fuel w)

  module _ (processing_frame : ℕ) where
    -- Start returns: while the context is not done and the database, the breaker and the listeners
    -- work, when each pending row that the search finds belongs to an enabled listener, and each
    -- enabled listener comes to be up to date. By then no row is pending, the pool was given the
    -- rows' jobs in their order, and after all enabled listeners were up to date exactly these were
    -- started and are listened to.
    pub start_lem :
        (works : Works world listeners processing_frame)
        → (fuel waits : ℕ) (ls again : List Listener) (w : W)
        → All (IsServed listeners) (works.table w)
        → length (works.table w) < fuel
        → names listeners ≢ []
        → All (Settles is_up_to_date waits) ls
        → (s : Launched W) × (start processing_frame fuel waits ls again w ≡ some s)
          × (works.table s.world ≡ [])
          × (works.queue s.world ≡ works.queue w ++ valid_jobs works.job_of (works.table w))
          × All (WasUpToDate is_up_to_date 0 s.pauses) ls
          × (starts_of s.actions ≡ enabled again)
          × (listens_of s.actions ≡ enabled again)
    unfolding start
    start_lem works fuel waits ls again w served enough some_listeners settles =
        let (w', ran, emptied, given) =
          process_pending_jobs_lem world listeners processing_frame works fuel w served enough
            some_listeners in
        let (n, acts, waited, was, starts, listening) =
          start_listeners_lem is_up_to_date waits 0 ls again settles in
        (
          record { world = w'; pauses = n; actions = acts },
          rw (ran, then_listeners, waited) refl,
          emptied,
          given,
          was,
          starts,
          listening,
        )
