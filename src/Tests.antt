-- ===== src/Tests.antt =====
-- Tests, and each theorem at an input that meets its conditions.
mod Samples
mod PoolRuns
mod JobRows
mod Batches
mod BehindRuns
mod PendingRuns
mod UtilsRuns
mod MetricRuns
mod ListeningRuns
mod SetupRuns
mod StoreRuns
mod AskedRuns
mod DecodeRuns
mod WorkerRuns
mod StartupRuns
mod RestartRuns
mod StuckRuns
mod ShutdownRuns
mod LaunchRuns
mod DeliveredRuns
