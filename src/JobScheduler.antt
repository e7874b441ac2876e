-- ===== src/JobScheduler.antt =====
-- service/JobScheduler.go: one poll, which publishes the jobs that are due.
pub mod Poll
pub mod Race
pub mod Loop
pub mod Complete
pub mod Waiting
pub mod Order
use parallelis_distributed_e.Base.{
  zero, suc, ℕ, ◌*◌, mul_int, str_eq, bytes, if◌then◌else◌, none, some, List, [], ◌∷◌, ok, err,
  Option, Str, Result,
}
use parallelis_distributed_e.Model.{
  Duration, second, Time, pending, running, completed, failed, dead_letter, Job,
}
use parallelis_distributed_e.Config.{Environment}
use parallelis_distributed_e.Strconv.{atoi}
use parallelis_distributed_e.Services.{Services, Exec, ◌>>=◌, ◌>>◌, pure, now, on_queue, Message}
use parallelis_distributed_e.Repository.{
  save, count_by_status, find_by_status_and_scheduled_at_before,
}

-- What `scheduleJob` writes into its copy of a published job.
unfoldable pub running_job : Time → Job → Job
running_job at job = record job { status = running; updated_at = at }

-- The interval of `NewJobScheduler` from what `Atoi` gives: milliseconds, 5 seconds if it fails.
unfoldable pub parsed_interval : Option ℕ → Duration
parsed_interval none = 5 * second
parsed_interval (some parsed) = mul_int parsed 1000000

-- The poll interval of `NewJobScheduler`
unfoldable pub poll_interval : Environment → Duration
poll_interval env =
    let val = env (bytes "SCHEDULER_POLL_INTERVAL") in
    if str_eq val [] then 5 * second else parsed_interval (atoi val)

module _ ⦃S : Services⦄ where
  -- The message of a job; the writer chooses the partition.
  unfoldable pub job_message : Job → Message
  job_message job = record { key = job.client_id; value = S.uuid_text job.id; partition = 0 }

  -- `scheduleJob` after the publication: only a published job is marked.
  unfoldable pub mark_published : Job → Option Str → Exec (Unit {0})
  mark_published job (some e) = pure tt
  mark_published job none = do at ← now; save (running_job at job); pure tt

  -- `scheduleJob`
  unfoldable pub schedule_job : Job → Exec (Unit {0})
  schedule_job job = do
    failure ← on_queue (S.queue.write_message (job_message job))
    mark_published job failure

  -- The loop of `scheduleJobs` over the jobs that the query returned.
  unfoldable pub schedule_all : List Job → Exec (Unit {0})
  schedule_all [] = pure tt
  schedule_all (job ∷ jobs) = do schedule_job job; schedule_all jobs

  unfoldable pub schedule_found : Result (List Job) → Exec (Unit {0})
  schedule_found (err e) = pure tt
  schedule_found (ok jobs) = schedule_all jobs

  -- `scheduleJobs`. Its `recover`s have nothing to catch: the library calls of the model return.
  unfoldable pub schedule_jobs : Exec (Unit {0})
  schedule_jobs = do
    at ← now
    due ← find_by_status_and_scheduled_at_before pending at
    schedule_found due

  -- The polling loop of `Start`, with so many rounds before the stop channel is found closed.
  unfoldable pub poll_loop : ℕ → Exec (Unit {0})
  poll_loop zero = pure tt
  poll_loop (suc n) = do schedule_jobs; poll_loop n

  -- A count that `LogStatistics` shows; it drops the error.
  unfoldable pub logged_count : Result ℕ → ℕ
  logged_count (ok n) = n
  logged_count (err e) = 0

  -- `LogStatistics`, with the numbers that it logs
  unfoldable pub log_statistics : Exec (List ℕ)
  log_statistics = do
    waiting ← count_by_status pending
    started ← count_by_status running
    done ← count_by_status completed
    broken ← count_by_status failed
    buried ← count_by_status dead_letter
    pure (
        logged_count waiting
        ∷ logged_count started
        ∷ logged_count done
        ∷ logged_count broken
        ∷ logged_count buried
        ∷ [])
