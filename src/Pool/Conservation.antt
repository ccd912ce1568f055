-- ===== src/Pool/Conservation.antt =====
-- What becomes of the jobs that the goroutines of the pool hand to each other.
pub mod Weights
pub mod Moves
pub mod Retries
pub mod Loop
pub mod Steps
pub mod Losses
pub mod MainLosses
pub mod Kept
