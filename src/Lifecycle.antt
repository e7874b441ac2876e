-- ===== src/Lifecycle.antt =====
-- The lifecycle of a job record: what holds of every record that the program writes, whatever fails
-- on the way (model/Job.go, and the writers in service/).
pub mod Hooked
pub mod Stores
pub mod Operations
pub mod Polls
pub mod Api
use parallelis_distributed_e.Base.{◌≡◌, ◌≢◌, ◌⊎◌, true, false, none, Str, lt_int, arith}
use parallelis_distributed_e.Model.{
  Time, Uuid, pending, running, completed, failed, dead_letter, Job, before_create, before_update,
}
use parallelis_distributed_e.Services.{Stored, stamped, on_update, on_create}
use parallelis_distributed_e.Dto.{JobRequest}
use parallelis_distributed_e.JobService.{requested_job}
use parallelis_distributed_e.JobScheduler.{running_job}
use parallelis_distributed_e.JobWorker.{failed_job, completed_job}

-- An open job has attempts left and a dead letter has none (`lt_int` is Go's signed `<`), a final
-- job has its completion time, every job has a time to run at, and none is `FAILED`.
pub record IsSound (j : Job) : Type 0 where
  pub budget : j.max_retries ≡ 3
  pub scheduled : j.scheduled_at ≢ none
  pub unfailed : j.status ≢ failed
  pub open_below : (j.status ≡ pending) ⊎ (j.status ≡ running) → lt_int j.attempts 3 ≡ true
  pub dead_above : j.status ≡ dead_letter → lt_int j.attempts 3 ≡ false
  pub final_timed : (j.status ≡ completed) ⊎ (j.status ≡ dead_letter) → j.completed_at ≢ none

requested_job-IsSound :
    (id : Uuid) (at : Time) (client_id : Str) (request : JobRequest)
    → IsSound (requested_job id at client_id request)
unfolding requested_job lt_int
requested_job-IsSound id at client_id request = ground arith

running_job-IsSound :
    (at : Time) (j : Job) → IsSound j → j.status ≡ pending → IsSound (running_job at j)
unfolding running_job
running_job-IsSound at j h p = ground arith

completed_job-IsSound : (at : Time) (j : Job) → IsSound j → IsSound (completed_job at j)
unfolding completed_job
completed_job-IsSound at j h = ground arith

failed_job-IsSound :
    (message : Str) (updated read : Time) (j : Job)
    → IsSound j
    → IsSound (failed_job message updated read j)
unfolding failed_job
failed_job-IsSound message updated read j h = ground arith

-- Nor does what GORM does to a job that it stores break this.
Stored-IsSound : {j k : Job} → Stored j k → IsSound j → IsSound k
unfolding before_update before_create
Stored-IsSound (stamped c u e) h = rw e (ground arith)
Stored-IsSound (on_update n c u e) h = rw e (ground arith)
Stored-IsSound (on_create f n c u e) h = rw e (ground arith)

-- A property of job records that every record the program writes has, if those have it that it
-- starts from. `Fresh` says which identifiers new jobs may get.
pub record Invariant (P : Job → Type 0) (Fresh : Uuid → Type 0) : Type 0 where
  pub of_stored : {j k : Job} → Stored j k → P j → P k
  pub of_requested :
      (id : Uuid) (at : Time) (client_id : Str) (request : JobRequest)
      → Fresh id
      → P (requested_job id at client_id request)
  pub of_running : (at : Time) (j : Job) → P j → j.status ≡ pending → P (running_job at j)
  pub of_completed : (at : Time) (j : Job) → P j → P (completed_job at j)
  pub of_failed :
      (message : Str) (updated read : Time) (j : Job) → P j → P (failed_job message updated read j)

pub sound : Invariant IsSound (λ id. Unit)
sound = record {
  of_stored = Stored-IsSound;
  of_requested = λ id at client_id request fresh. requested_job-IsSound id at client_id request;
  of_running = running_job-IsSound;
  of_completed = completed_job-IsSound;
  of_failed = failed_job-IsSound;
}
