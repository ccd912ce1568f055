-- ===== src/Job.antt =====
-- job.go: BaseJob. Hex and big-number texts (go-ethereum's hexutil and common) are the parameter
-- `Codec`; the wall clock and the answers of the database are arguments.
pub mod Base
pub mod Handler
pub mod RoundTrip
