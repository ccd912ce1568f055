-- ===== src/Controller/Batch.antt =====
-- processBatchLogs: the loop over batches of blocks.
pub mod Loop
pub mod Current
pub mod Progress
pub mod Jobs
pub mod Coverage
