-- ===== src/Lib.antt =====
-- Parallelis, a distributed job processor (src/main/go/com/demo/jobprocessor): clients post jobs to
-- an API, which stores them in PostgreSQL; a scheduler publishes the jobs that are due to Kafka;
-- the workers take them from there, run them, and store the outcome, with retries; Redis caches
-- jobs and counts the requests of each client.
--
-- Which file models which part, as functions of the same names in snake_case:
-- - Model (Model/JobRow, Model/Hooks, Model/Clock): model/Job.go, JobStatus.go, JobType.go, and
--   what the program uses of Go's package time.
-- - Dto: dto/JobRequest.go and dto/JobResponse.go. Strconv: Go's package strconv.
-- - Services: the libraries that the program calls. GORM, go-redis and kafka-go are records of
--   operations over states of their own, the parameter `Services`, with `uuid.Parse`, `UUID.String`
--   and the JSON text of a job; Services/Laws states the behaviour that some theorems rely on.
--   `World` is the state that a run threads through these calls, with what the clock and the
--   generator of identifiers will return: any sequences. `Exec` is its monad.
-- - Config: config/KafkaConsumerConfig.go, config/KafkaProducerConfig.go and config/RedisConfig.go,
--   the settings that come of the environment, which is any function; Config/Json has the helpers
--   that call Redis and Kafka, Config/Topics the creation of the topic, over any network.
-- - Repository: repository/JobRepository.go.
-- - CacheService, JobService, JobScheduler, JobWorker, RateLimitService: the files of service/ of
--   these names. A method becomes an action of `Exec`; a Go function that returns early is split
--   where it branches, into functions by clauses. A job that a call changes behind its pointer is
--   returned beside the call's error, so `save` returns what GORM left of the job.
-- - JobController: controller/JobController.go, from what gin reads of a request to the response.
-- - Exception: exception/ErrorResponse.go and exception/GlobalExceptionHandler.go, the bodies of
--   error responses.
-- - Metrics: config/metrics.go. A call of RecordHTTPRequest is the steps that it makes, each
--   atomic; calls are in any order, one step at a time (Metrics/Calls). `float64` is a parameter.
-- - Lifecycle: what holds of each job record that the program writes. System: requests, polls and
--   deliveries in any order, with losses of cache keys in between, and what then holds;
--   System/Threads, the same code as goroutines that stop at each library call, which
--   System/Interleaved (System/Keeping) lets run in any order and System/Atomic one at a time;
--   System/Identity, what never changes of a job; System/Changes (System/Foreign, System/Rows),
--   what can change a row; System/Completed, what becomes of a job whose message is delivered, and
--   System/Drained (JobScheduler/Waiting), of one that is due, once a worker has emptied the queue;
--   System/Stuck, of one that a worker runs before the scheduler has marked it; System/Pool, the
--   loops of all workers with Start and Stop (System/Hands, System/Traces, System/Settled,
--   System/Ranks, System/Ending); System/Limits (System/Untouched), the rate limit of a client
--   beside all this; and one job from its publication to its completion (System/Delivery) or to the
--   dead letters (System/Turns, System/Retries), or not (System/Stale).
-- - Memory: the libraries in memory, for which these laws hold. Examples: the theorems at concrete
--   inputs, on these. Memory/Traced gives any queue a trace of its calls, by which System/Settled
--   and System/Ending say what was fetched and for what a commit was asked.
--
-- Integers of Go are 64-bit patterns whose wrap-around is written out (Base/Word); a string is its
-- bytes (Base/Bytes); a time counts nanoseconds from the year 1, and a time before that is not
-- represented. No function takes fuel but the printing of digits, whose 20 suffice for 64 bits. The
-- database is taken to keep a time as it is given: readings of the clock are whole microseconds,
-- the resolution of a PostgreSQL timestamp. A loop that runs until its stop channel is closed is
-- given the number of rounds before that, but in System/Pool, where a goroutine is a state; `drive`
-- is given a number of library calls.
--
-- Not modelled: logging; a second `Stop`, which would panic, and `Stop` of the scheduler; panics of
-- the services, so that the `recover`s of the scheduler have nothing to catch; the interleaving of
-- library calls, but for what System/Interleaved, System/Settled and the files named Race and
-- System/Stuck say: elsewhere a poll and the handling of a message are steps of their own; what
-- happens inside a library call; connections, but for those that create the topic; the matching of
-- requests against routes; the JSON codec itself, which is a parameter. Text is assumed to be valid
-- UTF-8, without which JSON does not read back what it wrote.
pub mod Base
pub mod Model
pub mod Memory
pub mod Services
pub mod Repository
pub mod Config
pub mod CacheService
pub mod Dto
pub mod JobWorker
pub mod Strconv
pub mod RateLimitService
pub mod JobService
pub mod JobScheduler
pub mod JobController
pub mod Exception
pub mod Metrics
pub mod Lifecycle
pub mod System
mod Examples
