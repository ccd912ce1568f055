-- ===== src/Controller/Listening.antt =====
-- startListening.
pub mod Watch
pub mod Start
pub mod Attempts
pub mod Delivery
