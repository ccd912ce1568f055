-- ===== src/Pool/Invariant.antt =====
-- What holds of the pool in every reachable state: the counters of retries, the capacities, and
-- how far the shutdown has come.
pub mod Counts
pub mod Phases
pub mod WorkerPhases
pub mod MainPhases
pub mod PhaseSteps
pub mod Tokens
pub mod WorkerTokens
pub mod MainTokens
pub mod TokenSteps
pub mod Sizes
pub mod FirstTokens
