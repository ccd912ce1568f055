-- ===== src/Pool.antt =====
-- pool.go and the loop of worker.go: channels, the goroutines of the pool as one transition system,
-- and what every schedule keeps.
pub mod Channel
pub mod State
pub mod Ops
pub mod Workers
pub mod Retry
pub mod Main
pub mod System
pub mod Setup
pub mod Conservation
pub mod Invariant
pub mod Safety
pub mod Shutdown
pub mod Processing
