-- ===== src/Controller/Batch/Current.antt =====
-- The current block of a listener, which processBatchLogs writes with UpdateCurrentBlock after every
-- batch, and which startListening reads with GetCurrentBlock.
use bridge_core.Prelude.{
  String, ℕ, ◌+◌, ◌^◌, ◌≤◌, ◌<◌, ◌≡◌, ◌≢◌, ◌∙◌, refl, Option, some, List, [], ◌∷◌, ◌++◌, map, inl,
  inr, arith,
}
use bridge_core.Prelude.Outcome.{returns}
use bridge_core.Types.{Block, Listener}
use bridge_core.Controller.Filters.{Filters, no_filters, add_subscriptions}
use bridge_core.Controller.Logs.{LogTools}
use bridge_core.Controller.Batch.Loop.{
  process_batch_logs, Effect, filtered, filter_failed, cached, enqueued, updated,
  saved_current_block, Node, BatchState, batch_end, batch_round, batch_loop, u64, round_effects,
  batch_fuel, batch_start,
}
use bridge_core.Controller.Batch.Progress.{batch_end_bounds, batch_round-cases, batch_loop_inv}

-- The listener's GetCurrentBlock and UpdateCurrentBlock, over the application's state of the listener;
-- `none` is nil.
pub record Keeper (S : Type 0) : Type 0 where
  pub get_current_block : S → Option Block
  pub update_current_block : Option Block → S → S

module _ {S : Type 0} (keeper : Keeper S) where
  open keeper use {get_current_block, update_current_block}

  -- What a call of processBatchLogs does to the listener's current block.
  unfoldable pub after_effects : {J : Type 0} → List (Effect J) → S → S
  after_effects [] s = s
  after_effects (updated b ∷ es) s = after_effects es (update_current_block b s)
  after_effects (filtered a b ls ∷ es) s = after_effects es s
  after_effects (filter_failed a b ∷ es) s = after_effects es s
  after_effects (cached bs ∷ es) s = after_effects es s
  after_effects (enqueued j ∷ es) s = after_effects es s
  after_effects (saved_current_block ∷ es) s = after_effects es s

  -- The listener takes over a block that it is handed.
  pub record IsKeeper : Type 0 where
    pub takes : (b : Block) (s : S) → get_current_block (update_current_block (some b) s) ≡ some b

  -- The listener's current block is one of this height.
  abbrev pub StandsAt : S → ℕ → Type 0
  StandsAt s h = (b : Block) × (get_current_block s ≡ some b) × (b.height ≡ h)

  module _ {J : Type 0} where
    after_effects-append :
        (es fs : List (Effect J)) (s : S)
        → after_effects (es ++ fs) s ≡ after_effects fs (after_effects es s)
    unfolding after_effects
    after_effects-append [] fs s = refl
    after_effects-append (updated b ∷ es) fs s =
        after_effects-append es fs (update_current_block b s)
    after_effects-append (filtered a b ls ∷ es) fs s = after_effects-append es fs s
    after_effects-append (filter_failed a b ∷ es) fs s = after_effects-append es fs s
    after_effects-append (cached bs ∷ es) fs s = after_effects-append es fs s
    after_effects-append (enqueued j ∷ es) fs s = after_effects-append es fs s
    after_effects-append (saved_current_block ∷ es) fs s = after_effects-append es fs s

    after_effects-map :
        (js : List (Option J)) (fs : List (Effect J)) (s : S)
        → after_effects (map enqueued js ++ fs) s ≡ after_effects fs s
    unfolding after_effects
    after_effects-map [] fs s = refl
    after_effects-map (j ∷ js) fs s = after_effects-map js fs s

  module _ {J : Type 0} (is_keeper : IsKeeper) (tools : LogTools J) (node : Node) (chain_id : ℕ)
      (f : Filters) (batch_size to : ℕ) (fits : to + batch_size < 2 ^ 64)
      (finds : (n a : ℕ) → a ≤ to → (b : Block) × (node.get_block n a ≡ some b) × (b.height ≡ a))
      (start : S) where
    record Followed (s : BatchState J) : Type 0 where
      within : s.from_height ≤ to
      stands : StandsAt (after_effects s.trace start) s.from_height

    batch_round-Followed :
        (s s' : BatchState J)
        → Followed s
        → s.from_height < to
        → s.retry ≢ 10
        → batch_round tools node chain_id f batch_size to s ≡ returns s'
        → Followed s'
    unfolding after_effects
    batch_round-Followed s s' v before left moved =
        elim (batch_round-cases tools node chain_id f batch_size to s s' moved) [
          | inl (failed, e) ↦ rw e (record {
            within = v.within;
            stands =
                let same =
                  after_effects-append s.trace
                    (filter_failed s.from_height (batch_end batch_size to s.from_height) ∷ [])
                    start in
                rw same (v.stands);
          })
          | inr (logs, done, got, good, e) ↦
              let end : ℕ = batch_end batch_size to s.from_height in
              let bounds = batch_end_bounds batch_size to s.from_height fits before in
              let low : u64 (end + 1) ≤ to = omega arith in
              let (b, found, at) = finds s.calls (u64 (end + 1)) low in
              let same =
                after_effects-append s.trace
                  (round_effects tools node chain_id f batch_size to s.from_height end s.calls logs
                    done)
                  start
                ∙ after_effects-map done.jobs
                    (updated (node.get_block s.calls (u64 (end + 1))) ∷ saved_current_block ∷ [])
                    (after_effects s.trace start) in
              rw e (record {
                within = low;
                stands = rw (same, found) (b, is_keeper.takes b (after_effects s.trace start), at);
              })
        ]

    -- At the end of the loop the listener stands at the height that the loop reached, also if it
    -- gave up.
    pub batch_loop-StandsAt :
        (fuel : ℕ) (s r : BatchState J)
        → batch_loop tools node chain_id f batch_size to fuel s ≡ some (returns r)
        → s.from_height ≤ to
        → StandsAt (after_effects s.trace start) s.from_height
        → StandsAt (after_effects r.trace start) r.from_height
    batch_loop-StandsAt fuel s r ran low at =
        let (v, over) =
          batch_loop_inv tools node chain_id f batch_size to Followed batch_round-Followed fuel s r
            ran (record { within = low; stands = at }) in
        v.stands

module _ {S : Type 0} {J : Type 0} (keeper : Keeper S) (is_keeper : IsKeeper keeper)
    (tools : LogTools J) (node : Node) (hex_to_address : String → ℕ) (listener : Listener)
    (batch_size : ℕ) where
  -- If every GetBlock up to the second height succeeds, a call of processBatchLogs from the height of
  -- the listener's current block leaves the listener at the height that it returns.
  pub process_batch_logs-StandsAt :
      (chain_id from to : ℕ) (f : Filters) (start : S) (r : BatchState J)
      → node.get_chain_id ≡ some chain_id
      → add_subscriptions hex_to_address listener.subscriptions no_filters ≡ returns f
      → to + batch_size < 2 ^ 64
      → from ≤ to
      → ((n a : ℕ) → a ≤ to → (b : Block) × (node.get_block n a ≡ some b) × (b.height ≡ a))
      → StandsAt keeper start from
      → process_batch_logs tools node hex_to_address listener batch_size from to ≡ some (returns r)
      → StandsAt keeper (after_effects keeper r.trace start) r.from_height
  unfolding process_batch_logs after_effects
  process_batch_logs-StandsAt chain_id from to f start r known built fits ordered finds at ran =
      batch_loop-StandsAt keeper is_keeper tools node chain_id f batch_size to fits finds start
        (batch_fuel tools node hex_to_address listener batch_size from to)
        (batch_start tools node hex_to_address listener batch_size from) r
        (ground (arith, known, built, ran)) ordered at
