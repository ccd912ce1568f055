-- ===== src/Models.antt =====
-- models/job.go, models/event.go, models/processed_block.go:
-- the rows that the stores keep. Ids, counters and times are not negative.
pub mod Status
use bridge_core.Prelude.{ℕ, String}

pub record JobRow : Type 0 where
  pub id : ℕ
  pub listener : String
  pub subscription_name : String
  pub job_type : ℕ
  pub retry_count : ℕ
  pub status : String
  pub payload : String
  pub transaction : String
  pub created_at : ℕ
  pub from_chain_id : String
  pub method : String

pub record Event : Type 0 where
  pub event_name : String
  pub transaction_hash : String
  pub chain : String
  pub saved_at : ℕ

pub record ProcessedBlock : Type 0 where
  pub chain_id : String
  pub block : ℕ
