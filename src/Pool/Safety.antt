-- ===== src/Pool/Safety.antt =====
-- What every schedule of the pool guarantees, and where the shutdown can wait for ever.
pub mod Start
pub mod Shutdown
pub mod Hang
pub mod Crash
pub mod Overfull
pub mod Jam
pub mod HeldUp
