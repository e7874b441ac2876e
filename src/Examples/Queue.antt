-- ===== src/Examples/Queue.antt =====
-- Polls and deliveries.
use parallelis_distributed_e.Base.{
  true, length, ◌+◌, ◌≡◌, ◌≢◌, refl, some, none, [], ◌∷◌, bytes, ok, ltb, if◌then◌else◌, arith,
}
use parallelis_distributed_e.Model.{uuid_nil, Job, pending, dead_letter}
use parallelis_distributed_e.Services.{World}
use parallelis_distributed_e.Memory.{memory, memory_laws, empty_world}
use parallelis_distributed_e.System.{post}
use parallelis_distributed_e.CacheService.{minutes, job_cache_key, get_job, update_job}
use parallelis_distributed_e.CacheService.Coherence.{get_job-update_job}
use parallelis_distributed_e.JobScheduler.{schedule_jobs}
use parallelis_distributed_e.JobScheduler.Poll.{Scheduled, due, row-schedule_jobs}
use parallelis_distributed_e.JobWorker.{process_job, run_job, failed_job, completed_job}
use parallelis_distributed_e.JobWorker.Acknowledge.{broker-process_job}
use parallelis_distributed_e.JobWorker.Outcome.{Ran, run_job_outcome}
use parallelis_distributed_e.JobWorker.LateRetry.{retried_with_completion_time}
use parallelis_distributed_e.JobWorker.Retry.{Failure, fail_all, fail_all_status}
use parallelis_distributed_e.Memory.Codec.{text_of as job_text}
use parallelis_distributed_e.Examples.Runs.{cache, customer, request, message, after, waiting_job}

abbrev posted : World
posted = after (post customer (ok request) ∷ []) empty_world

posted_row : memory_laws.database.row posted.tables 1 ≡ some waiting_job
unfolding after
posted_row = refl

no_nil_row : memory_laws.database.row posted.tables 0 ≡ none
unfolding after
no_nil_row = refl

row-schedule_jobs_example :
    Scheduled
      (due memory_laws (posted.clock 0))
      waiting_job
      (memory_laws.database.row (schedule_jobs posted).1.tables 1)
row-schedule_jobs_example = row-schedule_jobs memory_laws waiting_job posted no_nil_row posted_row

broker-process_job_example :
    (process_job cache message posted).1.broker
    ≡ (memory.queue.commit_message message posted.broker).1
broker-process_job_example = broker-process_job cache message posted

run_job_outcome_example : Ran memory_laws waiting_job posted (run_job cache waiting_job posted).1
run_job_outcome_example = run_job_outcome memory_laws cache waiting_job posted

abbrev timeout : Failure
timeout = record { message = bytes "timeout"; updated = 7; read = 9 }

-- With a budget of 3, the third failure is the last.
fail_all_status_example :
    ((fail_all waiting_job (timeout ∷ timeout ∷ timeout ∷ [])).attempts
      ≡ waiting_job.attempts + length (timeout ∷ timeout ∷ timeout ∷ []))
    × ((fail_all waiting_job (timeout ∷ timeout ∷ timeout ∷ [])).status ≡ (
        if ltb
          (waiting_job.attempts + length (timeout ∷ timeout ∷ timeout ∷ []))
          waiting_job.max_retries
        then pending
        else dead_letter))
fail_all_status_example =
    fail_all_status waiting_job timeout (timeout ∷ timeout ∷ []) (omega arith) (omega arith)

-- The first of the two saves fails.
abbrev flaky : World
flaky = record posted { tables = record { jobs = waiting_job ∷ []; faults = true ∷ [] } }

retried_with_completion_time_example :
    (k : Job) × (memory_laws.database.row (run_job cache waiting_job flaky).1.tables 1 ≡ some k)
    × (k.status ≡ pending)
    × (k.completed_at ≡ some (flaky.clock 0))
unfolding completed_job failed_job
retried_with_completion_time_example =
    retried_with_completion_time memory_laws cache waiting_job (bytes "connection reset") flaky
      (λ name e. cc) (λ e. omega arith) (omega arith) refl refl refl

written :
    (memory.cache.set
      (job_cache_key 1)
      (job_text waiting_job)
      (minutes cache.job_cache_ttl_minutes)
      (memory.cache.del (job_cache_key 1 ∷ []) posted.store).1).0
    ≡ none
unfolding after
written = refl

hit : (get_job 1 (update_job cache waiting_job posted).1).0 ≡ some waiting_job
unfolding after
hit = refl

named : waiting_job.id ≢ uuid_nil
named e = omega arith

get_job-update_job_example : ◌≡◌ {A = Job} waiting_job waiting_job
get_job-update_job_example =
    get_job-update_job memory_laws cache waiting_job waiting_job posted (job_text waiting_job) named
      refl written hit
