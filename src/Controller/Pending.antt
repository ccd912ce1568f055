-- ===== src/Controller/Pending.antt =====
-- processPendingJobs: the pending rows of the job table become jobs of the pool.
pub mod Rows
pub mod Delivery
pub mod Stuck
pub mod Restart
