-- ===== src/JobWorker.antt =====
-- service/JobWorker.go: one message of the queue, from its job identifier to its acknowledgement.
pub mod Acknowledge
pub mod Outcome
pub mod LateRetry
pub mod Retry
pub mod Loop
pub mod Fetch
pub mod Completion
use parallelis_distributed_e.Base.{
  ℕ, zero, suc, ◌^◌, ◌++◌, ltb, Option, none, some, Str, bytes, Result, ok, err, sign_bit, add_int,
  lt_int, if◌then◌else◌,
}
use parallelis_distributed_e.Model.{
  Time, Uuid, add_duration, seconds, pending, completed, dead_letter, JobType, payment_process,
  email_confirmation, other, Job,
}
use parallelis_distributed_e.Config.{
  Environment, ReaderConfig, new_kafka_consumer_reader, get_job_queue_topic,
}
use parallelis_distributed_e.Services.{Services, Exec, ◌>>=◌, ◌>>◌, pure, now, on_queue, Message}
use parallelis_distributed_e.Repository.{save, find_by_id}
use parallelis_distributed_e.CacheService.{CacheService, get_job, cache_job, update_job}

-- `int64(math.Pow(2, float64(attempts)))`: powers up to 2 ^ 62 are exact, a larger one does not fit
-- (amd64 then gives the smallest `int64`), and the fraction of a negative exponent is cut to 0.
unfoldable pub backoff_seconds : ℕ → ℕ
backoff_seconds attempts =
    if ltb attempts 63 then 2 ^ attempts else if ltb attempts sign_bit then sign_bit else 0

-- `getProcessingTime`
unfoldable pub processing_time : JobType → ℕ
processing_time payment_process = 2000
processing_time email_confirmation = 1000
processing_time (other name) = 0

-- `JobWorker`, without its clients: the settings of its reader and its number of goroutines.
pub record JobWorker : Type 0 where
  pub reader : ReaderConfig
  pub concurrency : ℕ

-- `NewJobWorker`
unfoldable pub new_job_worker : Environment → ℕ → JobWorker
new_job_worker env concurrency = record {
  reader = new_kafka_consumer_reader env (get_job_queue_topic env);
  concurrency = concurrency;
}

-- What `handleJobFailure` writes into the job: `updated`, `read` are its two readings of the clock.
-- Both branches read the clock once more, for `ScheduledAt` or for `CompletedAt`.
unfoldable pub failed_job : Str → Time → Time → Job → Job
failed_job message updated read job =
    let attempts = add_int job.attempts 1 in
    let counted = record job {
      attempts = attempts;
      error_message = some message;
      updated_at = updated;
    } in
    if lt_int attempts job.max_retries
    then record counted {
      status = pending;
      scheduled_at = some (add_duration read (seconds (backoff_seconds attempts)));
    }
    else record counted { status = dead_letter; completed_at = some read }

-- What `processJobInternal` writes into the job.
unfoldable pub completed_job : Time → Job → Job
completed_job at job = record job { status = completed; completed_at = some at; updated_at = at }

abbrev pub save_failed : Str → Str
save_failed e = bytes "failed to save completed job: " ++ e

abbrev pub unknown_type : Str → Str
unknown_type name = bytes "unknown job type: " ++ name

module _ ⦃S : Services⦄ where
  -- `processJobInternal` after its `Save`; the results are the error, and the job behind the
  -- pointer.
  unfoldable pub finish : CacheService → Option Str × Job → Exec (Option Str × Job)
  finish cs (some e, job) = pure (some (save_failed e), job)
  finish cs (none, job) = do update_job cs job; pure (none, job)

  -- `processJobInternal` for the types that it knows.
  unfoldable pub complete : CacheService → Job → Exec (Option Str × Job)
  complete cs job = do at ← now; saved ← save (completed_job at job); finish cs saved

  -- Its `switch`; the sleeps only let time pass.
  unfoldable pub process_by_type : JobType → CacheService → Job → Exec (Option Str × Job)
  process_by_type payment_process cs job = complete cs job
  process_by_type email_confirmation cs job = complete cs job
  process_by_type (other name) cs job = pure (some (unknown_type name), job)

  -- `processJobInternal`
  unfoldable pub process_job_internal : CacheService → Job → Exec (Option Str × Job)
  process_job_internal cs job = process_by_type job.type cs job

  -- `handleJobFailure`
  unfoldable pub handle_job_failure : CacheService → Job → Str → Exec (Unit {0})
  handle_job_failure cs job message = do
    updated ← now
    read ← now
    saved ← save (failed_job message updated read job)
    update_job cs saved.1

  -- The row of a job that was not in the cache, which it then fills.
  unfoldable pub cache_loaded : CacheService → Result Job → Exec (Option Job)
  cache_loaded cs (err e) = pure none
  cache_loaded cs (ok job) = do cache_job cs job; pure (some job)

  unfoldable pub or_load : CacheService → Uuid → Option Job → Exec (Option Job)
  or_load cs id (some job) = pure (some job)
  or_load cs id none = do row ← find_by_id id; cache_loaded cs row

  -- The job of a message: from the cache, else from the database.
  unfoldable pub fetch_job : CacheService → Uuid → Exec (Option Job)
  fetch_job cs id = do cached ← get_job id; or_load cs id cached

  -- `processJob` after `processJobInternal`
  unfoldable pub settle : CacheService → Option Str × Job → Exec (Unit {0})
  settle cs (none, job) = pure tt
  settle cs (some message, job) = handle_job_failure cs job message

  -- `processJob` with its job, up to the acknowledgement
  unfoldable pub run_job : CacheService → Job → Exec (Unit {0})
  run_job cs job = do result ← process_job_internal cs job; settle cs result

  -- `CommitMessages`; its error is only logged.
  unfoldable pub acknowledge : Message → Exec (Unit {0})
  acknowledge msg = do on_queue (S.queue.commit_message msg); pure tt

  unfoldable pub run_found : CacheService → Message → Option Job → Exec (Unit {0})
  run_found cs msg none = acknowledge msg
  run_found cs msg (some job) = do run_job cs job; acknowledge msg

  unfoldable pub process_parsed : CacheService → Message → Result Uuid → Exec (Unit {0})
  process_parsed cs msg (err e) = acknowledge msg
  process_parsed cs msg (ok id) = do job ← fetch_job cs id; run_found cs msg job

  -- `processJob`
  unfoldable pub process_job : CacheService → Message → Exec (Unit {0})
  process_job cs msg = process_parsed cs msg (S.parse_uuid msg.value)

  -- `consumeLoop` after `FetchMessage`: an error is only waited out.
  unfoldable pub consume_fetched : CacheService → Result Message → Exec (Unit {0})
  consume_fetched cs (err e) = pure tt
  consume_fetched cs (ok msg) = process_job cs msg

  -- `consumeLoop`, with so many rounds before the stop channel is found closed.
  unfoldable pub consume_loop : CacheService → ℕ → Exec (Unit {0})
  consume_loop cs zero = pure tt
  consume_loop cs (suc n) = do
    fetched ← on_queue S.queue.fetch_message
    consume_fetched cs fetched
    consume_loop cs n
