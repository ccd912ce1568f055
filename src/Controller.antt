-- ===== src/Controller.antt =====
-- controller.go: how a listener's blocks become jobs.
pub mod Filters
pub mod Logs
pub mod Batch
pub mod Behind
pub mod Pending
pub mod Listening
pub mod Close
pub mod Setup
pub mod Asked
pub mod Origin
pub mod Startup
pub mod Launch
pub mod Delivered
