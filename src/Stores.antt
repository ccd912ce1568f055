-- ===== src/Stores.antt =====
-- stores/: the queries that the stores build.
pub mod Jobs
pub mod Search
pub mod Blocks
