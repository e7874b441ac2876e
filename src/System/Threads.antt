-- ===== src/System/Threads.antt =====
-- The goroutines of the workers and of the scheduler, one library call at a time.
use parallelis_distributed_e.Base.{
  ℕ, zero, suc, Option, none, some, List, [], ◌∷◌, Str, Result, ok, err,
}
use parallelis_distributed_e.Model.{
  Uuid, JobType, payment_process, email_confirmation, other, pending, Job,
}
use parallelis_distributed_e.Services.{Message, Services, Exec, ◌>>=◌, ◌>>◌, pure, now, on_queue}
use parallelis_distributed_e.Repository.{save, find_by_id, find_by_status_and_scheduled_at_before}
use parallelis_distributed_e.CacheService.{CacheService, get_job, cache_job, invalidate_job}
use parallelis_distributed_e.JobScheduler.{running_job, job_message}
use parallelis_distributed_e.JobWorker.{
  failed_job, completed_job, save_failed, unknown_type, acknowledge,
}

-- Where a goroutine stands, with its local variables. The first eight are `processJob`, the next
-- three a poll.
pub data Thread : Type 0 where
  begun : Message → Thread
  missed : Message → Uuid → Thread
  loaded : Message → Job → Thread
  taken : Message → Job → Thread
  failing : Message → Str → Job → Thread
  outdated : Message → Job → Thread
  uncached : Message → Job → Thread
  committing : Message → Thread
  polling : Thread
  queued : List Job → Thread
  sent : Job → List Job → Thread
  ended : Thread

-- After the lookup in the cache
unfoldable pub after_get : Message → Uuid → Option Job → Thread
after_get msg id none = missed msg id
after_get msg id (some job) = taken msg job

-- After the lookup in the database
unfoldable pub after_find : Message → Result Job → Thread
after_find msg (err e) = committing msg
after_find msg (ok job) = loaded msg job

-- After the save of the completed job
unfoldable pub after_save : Message → Option Str × Job → Thread
after_save msg (some e, job) = failing msg (save_failed e) job
after_save msg (none, job) = outdated msg job

-- After the query of a poll
unfoldable pub after_query : Result (List Job) → Thread
after_query (err e) = ended
after_query (ok jobs) = queued jobs

-- After the publication of a job
unfoldable pub after_write : Job → List Job → Option Str → Thread
after_write job jobs (some e) = queued jobs
after_write job jobs none = sent job jobs

module _ ⦃S : Services⦄ where
  unfoldable pub begin_parsed : Message → Result Uuid → Exec Thread
  begin_parsed msg (err e) = pure (committing msg)
  begin_parsed msg (ok id) = do cached ← get_job id; pure (after_get msg id cached)

  unfoldable pub process_taken : Message → JobType → Job → Exec Thread
  process_taken msg payment_process job = do
    at ← now
    saved ← save (completed_job at job)
    pure (after_save msg saved)
  process_taken msg email_confirmation job = do
    at ← now
    saved ← save (completed_job at job)
    pure (after_save msg saved)
  process_taken msg (other name) job = pure (failing msg (unknown_type name) job)

  -- The next library call of a goroutine, with the readings of the clock before it.
  unfoldable pub advance : CacheService → Thread → Exec Thread
  advance cs (begun msg) = begin_parsed msg (S.parse_uuid msg.value)
  advance cs (missed msg id) = do row ← find_by_id id; pure (after_find msg row)
  advance cs (loaded msg job) = do cache_job cs job; pure (taken msg job)
  advance cs (taken msg job) = process_taken msg job.type job
  advance cs (failing msg message job) = do
    updated ← now
    read ← now
    saved ← save (failed_job message updated read job)
    pure (outdated msg saved.1)
  advance cs (outdated msg job) = do invalidate_job job.id; pure (uncached msg job)
  advance cs (uncached msg job) = do cache_job cs job; pure (committing msg)
  advance cs (committing msg) = do acknowledge msg; pure ended
  advance cs polling = do
    at ← now
    due ← find_by_status_and_scheduled_at_before pending at
    pure (after_query due)
  advance cs (queued []) = pure ended
  advance cs (queued (job ∷ jobs)) = do
    failure ← on_queue (S.queue.write_message (job_message job))
    pure (after_write job jobs failure)
  advance cs (sent job jobs) = do at ← now; save (running_job at job); pure (queued jobs)
  advance cs ended = pure ended

  -- So many steps of one goroutine, with no other in between.
  unfoldable pub drive : CacheService → ℕ → Thread → Exec Thread
  drive cs zero t = pure t
  drive cs (suc n) t = do t' ← advance cs t; drive cs n t'
