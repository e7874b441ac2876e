-- ===== src/System/Turns.antt =====
-- Polls and deliveries of the message of one job, and what a failure makes of the job.
use parallelis_distributed_e.Base.{
  ℕ, suc, ◌+◌, ◌<◌, ◌≡◌, refl, ap, ◌∙◌, inl, inr, Option, some, none, List, [], ◌∷◌, Str, Result,
  ok, err, Bool-cases, ltb, arith,
}
use parallelis_distributed_e.Model.{Time, JobStatus, pending, running, dead_letter, Job}
use parallelis_distributed_e.Services.{Message, Services, World}
use parallelis_distributed_e.Repository.{save, find_by_status_and_scheduled_at_before}
use parallelis_distributed_e.CacheService.{CacheService, update_job}
use parallelis_distributed_e.CacheService.Frame.{frame-update_job}
use parallelis_distributed_e.JobScheduler.{
  mark_published, schedule_job, schedule_all, schedule_found, schedule_jobs,
}
use parallelis_distributed_e.JobWorker.{failed_job, process_job}
use parallelis_distributed_e.JobWorker.Retry.{failed_job_lem}

-- A turn of the scheduler, or of a worker with a message of the job.
pub data Turn : Type 0 where
  polled delivered : Turn

unfoldable pub deliveries : List Turn → ℕ
deliveries [] = 0
deliveries (polled ∷ ts) = deliveries ts
deliveries (delivered ∷ ts) = suc (deliveries ts)

-- What the status is after so many deliveries, for a budget of 3.
pub data Progress (n : ℕ) (s : JobStatus) : Type 0 where
  waiting : n < 3 → s ≡ pending → Progress n s
  queued : n < 3 → s ≡ running → Progress n s
  buried : n ≡ 3 → s ≡ dead_letter → Progress n s

-- A failure counts one attempt, and the third makes a dead letter.
pub failed-Progress :
    (message : Str) (updated read : Time) (j : Job)
    → j.attempts < 3
    → j.max_retries ≡ 3
    → Progress (suc j.attempts) (failed_job message updated read j).status
      × ((failed_job message updated read j).attempts ≡ suc j.attempts)
failed-Progress message updated read j few budget =
    rw (failed_job_lem message updated read j (omega arith) (omega arith))
      (elim (Bool-cases (ltb (j.attempts + 1) j.max_retries)) [
        | inl left ↦ rw left (waiting (ground arith) refl, omega arith)
        | inr spent ↦ rw spent (buried (ground arith) refl, omega arith)
      ])

pub failed_keeps :
    (message : Str) (updated read : Time) (j : Job)
    → ((failed_job message updated read j).id ≡ j.id)
      × ((failed_job message updated read j).type ≡ j.type)
      × ((failed_job message updated read j).max_retries ≡ j.max_retries)
unfolding failed_job
failed_keeps message updated read j = ground arith

module _ ⦃S : Services⦄ where
  -- Turns in order, for the message of one job.
  unfoldable pub turns : CacheService → Message → List Turn → World → World
  turns cs msg [] w = w
  turns cs msg (polled ∷ ts) w = turns cs msg ts (schedule_jobs w).1
  turns cs msg (delivered ∷ ts) w = turns cs msg ts (process_job cs msg w).1

  store-mark_published :
      (j : Job) (o : Option Str) (w : World) → (mark_published j o w).1.store ≡ w.store
  unfolding mark_published save
  store-mark_published j (some e) w = refl
  store-mark_published j none w = refl

  store-schedule_all : (js : List Job) (w : World) → (schedule_all js w).1.store ≡ w.store
  unfolding schedule_all schedule_job
  store-schedule_all [] w = refl
  store-schedule_all (j ∷ js) w = store-schedule_all js _ ∙ store-mark_published j _ _

  store-schedule_found :
      (r : Result (List Job)) (w : World) → (schedule_found r w).1.store ≡ w.store
  unfolding schedule_found
  store-schedule_found (err e) w = refl
  store-schedule_found (ok js) w = store-schedule_all js w

  pub store-schedule_jobs : (w : World) → (schedule_jobs w).1.store ≡ w.store
  unfolding schedule_jobs find_by_status_and_scheduled_at_before
  store-schedule_jobs w = store-schedule_found _ _

  pub tables-update_job :
      (cs : CacheService) (j : Job) (w : World) → (update_job cs j w).1.tables ≡ w.tables
  tables-update_job cs j w = ap (λ (u : World). u.tables) (frame-update_job cs j w)
