-- ===== src/Metrics.antt =====
-- The pusher of metrics.
pub mod Pusher
pub mod Registered
pub mod Run
