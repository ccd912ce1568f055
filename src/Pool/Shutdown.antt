-- ===== src/Pool/Shutdown.antt =====
-- The shutdown of a pool whose jobs succeed.
pub mod Calm
pub mod WorkerCalm
pub mod MainCalm
pub mod CalmSteps
pub mod Work
pub mod MainWork
pub mod Room
pub mod Progress
pub mod Halts
pub mod Ends
pub mod Accounts
