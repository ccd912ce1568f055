-- ===== src/Lib.antt =====
-- A model of bridge-core, a library that fetches the events of a chain, turns them into jobs
-- and runs the jobs in a pool of workers.
--
-- The controller asks a node for the logs of a listener's contracts (controller.go), makes a
-- job of each log that belongs to a subscription, and enqueues it in the pool (pool.go). The
-- pool's main loop hands jobs to workers (worker.go); a job that fails waits for its next try
-- in a goroutine of its own, and is given up when its tries are used up. When the context is
-- done the pool drains its channels and writes what is left to the database as rows of the job
-- table (job.go, models/).
--
-- - Prelude: tests, lists, maps, int32 and outcomes (a return or a panic), shared by all.
-- - Types, Models: types.go, models/ and the status constants of stores/main.go.
-- - Job: BaseJob of job.go. Base has the job, its rows and its methods, Handler the interface
--   that the pool uses, RoundTrip what a row keeps.
-- - Pool: pool.go and the channel of worker.go. State has the pool with the program counters
--   of its goroutines; Ops has Enqueue, RetryJob, SendJobToWorker, saveJob and
--   processFailedJob; Workers has startWorker, Retry PrepareRetryableJob, Main the loop of
--   Start, Setup NewPool, AddWorkers and the workers that NewWithContext makes. Processing has
--   ProcessJob of worker.go, for any job and for a BaseJob; its verdict is what the worker's
--   step takes. System joins them: an event names the goroutine that moves and the answers
--   that it gets (does the save succeed, how does the job end, which case of a select is
--   taken), and a schedule is a list of events, so that every interleaving of the channel
--   operations is a schedule. An event that would block has no successor. Conservation,
--   Invariant and Safety are about every schedule: the weights of the jobs and the steps that
--   lose none (Losses, Kept), the phases of the shutdown, the wait group, the tokens that
--   workers leave in the queue, and the states in which the pool is stuck (Hang, Crash,
--   Overfull, Jam, HeldUp). Shutdown is about a pool whose jobs succeed: Calm has the
--   invariant, Work the measure of what is left, Progress the step that comes next; Halts,
--   Ends and Accounts put them together.
-- - Controller: controller.go. processBatchLogs by its parts: Filters (what is asked of the
--   node), Logs (one answer), Batch (the loop; Current has the listener's current block, which
--   a batch writes). Behind has processBehindBlock and processTxs: Txs and Blocks the code,
--   Range and Whole what becomes a job. Pending has processPendingJobs: Rows the code,
--   Delivery and Stuck which rows become jobs and which keep the loop going, Restart what the
--   search finds of the rows that Save wrote. Listening has startListening: Watch the endless
--   loop, Start what comes before it, Delivery the jobs of several rounds, Attempts the tries.
--   Setup has the part of NewWithContext that connects the listeners, with LoadABIsFromConfig,
--   and Close the contexts, Close and what may happen meanwhile. Startup has startListeners,
--   closeListeners and LoadAbi, Launch has Start, and Delivered follows the jobs of
--   processBatchLogs through the pool. Asked says what the filters make FilterLogs ask for,
--   and Origin where the entries of eventIds come from and what UnpackLog makes of a job's
--   data.
-- - Stores: stores/. Jobs has the job store with its search as data, Search what a search
--   finds, Blocks the stores of processed blocks and events.
-- - Utils: Transactor has SendContractTransaction and its signer (utils/main.go), Filter
--   FilterLogs, Arguments GetArguments, UnpackToInterface and UnpackLog, Invoke Invoke, Sign
--   signTypedData and NewSignMethod (utils/sign.go), Kms the metrics of KmsSign.Sign.
-- - Metrics: Pusher has adapters/prometheus/pusher.go, Run the names and RunPusher of
--   metrics/metrics.go, Registered what IncrCounter answers.
-- - Tests: runs of the model, and each result at an input that meets its conditions.
--
-- Chosen bounds. Heights are taken modulo 2^64, as uint64; the results about them ask that the
-- last height plus the batch size stay below. Row ids are converted to int32. Counters of
-- retries, times and sizes are natural numbers: the program starts them at 0 or later and only
-- adds, and the sums are far below 2^63. The loop of processBatchLogs runs on fuel, one unit
-- for each block and eleven for the failures, which is enough since each round moves ahead or
-- counts a failure. The loop over the transactions' blocks repeats a failed question without a
-- limit, so its fuel is an argument, and the results about it say how much is enough for a
-- node that answers within a number of attempts. The loop of processPendingJobs runs on fuel
-- for each round; a round removes at least one row when nothing fails, so that more rounds
-- than rows are enough. The attempts before the endless loop of startListening take at most
-- eleven tries, which is their fuel; in the loop each round brings the fuel of its loop over
-- transactions along. The wait of startListeners runs on fuel for each listener, one unit for
-- a pause.
--
-- Parameters. The circuit breaker, the node, the listener's own methods (GetCurrentBlock and
-- UpdateCurrentBlock over a state of the listener), the event store's Save in Process, json,
-- hexutil, reflect, crypto, the decoders of the ABI, the clock and the database are arguments
-- or answers of the environment. Hashes, addresses and arguments of an ABI are numbers. A job
-- is any type with the methods of JobHandler; BaseJob is one. A Go map is an association list
-- in the order of its iteration, and a query of a store is data that a parameter answers.
--
-- Not modelled: logging and the reporter of statistics, the calls that push the metrics,
-- compareAddress, which nothing calls, Title and RlpHash, the opening of a database
-- connection, the configuration of the adapters, and what an application's own listeners and
-- jobs do.
pub mod Prelude
pub mod Types
pub mod Models
pub mod Job
pub mod Pool
pub mod Stores
pub mod Controller
pub mod Utils
pub mod Metrics
mod Tests
