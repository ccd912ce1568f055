-- ===== src/Stores/Blocks.antt =====
-- stores/processed_block.go and stores/event.go: the heights that the listeners have reached, one for
-- each chain, and the events that jobs have seen. Heights are not negative.
use bridge_core.Prelude.Map.{string_eq}
use bridge_core.Prelude.{ℕ, String, Option, none, some, Bool, false, true}
use bridge_core.Prelude.Int.{ℤ, pos, negsuc}
use bridge_core.Models
use bridge_core.Models.{ProcessedBlock}

-- A Create with OnConflict UpdateAll, and First with "id = ?"; `none` is an error.
pub record BlockTable (D : Type 0) : Type 0 where
  pub upsert : ProcessedBlock → D → Option D
  pub first_with_id : String → D → Option ProcessedBlock

-- A Create with OnConflict DoNothing, Delete with "created_at <= ?", and Count.
pub record EventTable (D : Type 0) : Type 0 where
  pub create_if_new : Models.Event → D → Option D
  pub delete_until : ℕ → D → Option D
  pub count : D → ℕ

module _ {D : Type 0} (table : BlockTable D) where
  unfoldable pub save_block : String → ℕ → D → Option D
  save_block chain_id height d = table.upsert (record { chain_id = chain_id; block = height }) d

  -- The height and whether there is an error.
  unfoldable pub get_latest_block : String → D → ℤ × Bool
  get_latest_block chain_id d = elim (table.first_with_id chain_id d) [
    | none ↦ (negsuc 0, true)
    | some row ↦ (pos row.block, false)
  ]

module _ {D : Type 0} (table : EventTable D) where
  unfoldable pub save_event : Models.Event → D → Option D
  save_event event d = table.create_if_new event d

  unfoldable pub delete_events : ℕ → D → Option D
  delete_events created_at d = table.delete_until created_at d

  unfoldable pub count_events : D → ℕ
  count_events d = table.count d
