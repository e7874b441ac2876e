-- ===== src/JobService.antt =====
-- service/JobService.go: creation, lookup and status changes of jobs.
use parallelis_distributed_e.Base.{
  ℕ, ◌*◌, ◌||◌, Option, none, some, List, Str, bytes, ◌++◌, Result, ok, err, sub_int, mul_int,
  if◌then◌else◌,
}
use parallelis_distributed_e.Model.{
  Time, second, add_duration, Uuid, JobStatus, pending, running, completed, dead_letter, status_eq,
  Job,
}
use parallelis_distributed_e.Services.{Services, Exec, ◌>>=◌, pure, now, new_uuid}
use parallelis_distributed_e.Dto.{JobRequest}
use parallelis_distributed_e.Repository.{
  save, find_by_id, find_by_status_and_scheduled_at_before, find_by_client_id, find_by_status,
  count_by_status,
}
use parallelis_distributed_e.Repository

-- The job that `CreateJob` builds.
unfoldable pub requested_job : Uuid → Time → Str → JobRequest → Job
requested_job id at client_id request = record {
  id = id;
  client_id = client_id;
  type = request.type;
  status = pending;
  payload = request.payload;
  attempts = 0;
  max_retries = 3;
  created_at = at;
  scheduled_at = some at;
  completed_at = none;
  error_message = none;
  updated_at = 0;
}

-- `err`, or the job that the saving call left behind its pointer
abbrev pub saved_or_error : Option Str × Job → Result Job
saved_or_error (some e, job) = err e
saved_or_error (none, job) = ok job

-- `JobNotFoundError.Error()`
abbrev pub not_found_text : Str → Str
not_found_text id = bytes "Job not found with id: " ++ id

abbrev pub count_or_zero : Result ℕ → ℕ
count_or_zero (ok n) = n
count_or_zero (err e) = 0

module _ ⦃S : Services⦄ where
  -- `CreateJob`
  unfoldable pub create_job : Str → JobRequest → Exec (Result Job)
  create_job client_id request = do
    at ← now
    id ← new_uuid
    saved ← save (requested_job id at client_id request)
    pure (saved_or_error saved)

  -- `GetJob`: every error of the query, a missing row or a lost connection, is "not found".
  unfoldable pub found_or_error : Uuid → Result Job → Result Job
  found_or_error id (ok job) = ok job
  found_or_error id (err e) = err (not_found_text (S.uuid_text id))

  unfoldable pub get_job : Uuid → Exec (Result Job)
  get_job id = do row ← find_by_id id; pure (found_or_error id row)

  -- `GetJobsByClient`, `GetJobsByStatus`
  unfoldable pub get_jobs_by_client : Str → Exec (Result (List Job))
  get_jobs_by_client client_id = find_by_client_id client_id

  unfoldable pub get_jobs_by_status : JobStatus → Exec (Result (List Job))
  get_jobs_by_status status = find_by_status status

  -- Sets the status, and the completion time of a final status.
  unfoldable pub set_status : JobStatus → Job → Exec Job
  set_status status job =
      if status_eq status completed || status_eq status dead_letter
      then (do at ← now; pure (record job { status = status; completed_at = some at }))
      else pure (record job { status = status })

  -- `UpdateJobStatus` with what `GetJob` gives
  unfoldable pub save_status : JobStatus → Result Job → Exec (Result Job)
  save_status status (err e) = pure (err e)
  save_status status (ok job) = do
    changed ← set_status status job
    saved ← save changed
    pure (saved_or_error saved)

  -- `UpdateJobStatus`
  unfoldable pub update_job_status : Uuid → JobStatus → Exec (Result Job)
  update_job_status id status = do row ← get_job id; save_status status row

  -- `CountJobsByStatus`: 0 if the query fails.
  unfoldable pub count_jobs_by_status : JobStatus → Exec ℕ
  count_jobs_by_status status = do count ← count_by_status status; pure (count_or_zero count)

  -- `FindJobsReadyForScheduling`
  unfoldable pub find_jobs_ready_for_scheduling : Exec (Result (List Job))
  find_jobs_ready_for_scheduling = do at ← now; find_by_status_and_scheduled_at_before pending at

  -- `FindStuckJobs`
  unfoldable pub find_stuck_jobs : ℕ → Exec (Result (List Job))
  find_stuck_jobs minutes = do
    at ← now
    Repository.find_stuck_jobs running (add_duration at (mul_int (sub_int 0 minutes) (60 * second)))
