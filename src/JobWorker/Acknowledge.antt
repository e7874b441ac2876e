-- ===== src/JobWorker/Acknowledge.antt =====
-- When `processJob` acknowledges its message, and what a failing database then leaves behind.
use parallelis_distributed_e.Base.{◌≡◌, refl, ap, ◌∙◌, some, none, Option, Str, Result, ok, err}
use parallelis_distributed_e.Model.{Uuid, JobType, payment_process, email_confirmation, other, Job}
use parallelis_distributed_e.Services.{Message, Services, World}
use parallelis_distributed_e.Repository.{save, find_by_id}
use parallelis_distributed_e.CacheService.{CacheService, get_job}
use parallelis_distributed_e.CacheService.Frame.{frame-cache_job, frame-update_job}
use parallelis_distributed_e.JobWorker.{
  finish, complete, process_by_type, process_job_internal, handle_job_failure, cache_loaded,
  or_load, fetch_job, settle, run_job, acknowledge, run_found, process_parsed, process_job,
}

module _ ⦃S : Services⦄ where
  broker-finish :
      (cs : CacheService) (saved : Option Str × Job) (w : World)
      → (finish cs saved w).1.broker ≡ w.broker
  unfolding finish
  broker-finish cs (some e, j) w = refl
  broker-finish cs (none, j) w = ap (λ (u : World). u.broker) (frame-update_job cs j w)

  broker-process_by_type :
      (t : JobType) (cs : CacheService) (j : Job) (w : World)
      → (process_by_type t cs j w).1.broker ≡ w.broker
  unfolding process_by_type complete save
  broker-process_by_type payment_process cs j w = broker-finish cs _ _
  broker-process_by_type email_confirmation cs j w = broker-finish cs _ _
  broker-process_by_type (other name) cs j w = refl

  broker-settle :
      (cs : CacheService) (r : Option Str × Job) (w : World) → (settle cs r w).1.broker ≡ w.broker
  unfolding settle handle_job_failure save
  broker-settle cs (none, j) w = refl
  broker-settle cs (some message, j) w = ap (λ (u : World). u.broker) (frame-update_job cs _ _)

  broker-run_job : (cs : CacheService) (j : Job) (w : World) → (run_job cs j w).1.broker ≡ w.broker
  unfolding run_job process_job_internal
  broker-run_job cs j w = broker-settle cs _ _ ∙ broker-process_by_type j.type cs j w

  broker-cache_loaded :
      (cs : CacheService) (r : Result Job) (w : World) → (cache_loaded cs r w).1.broker ≡ w.broker
  unfolding cache_loaded
  broker-cache_loaded cs (err e) w = refl
  broker-cache_loaded cs (ok j) w = ap (λ (u : World). u.broker) (frame-cache_job cs j w)

  broker-or_load :
      (cs : CacheService) (id : Uuid) (o : Option Job) (w : World)
      → (or_load cs id o w).1.broker ≡ w.broker
  unfolding or_load find_by_id
  broker-or_load cs id (some j) w = refl
  broker-or_load cs id none w = broker-cache_loaded cs _ _

  broker-fetch_job :
      (cs : CacheService) (id : Uuid) (w : World) → (fetch_job cs id w).1.broker ≡ w.broker
  unfolding fetch_job get_job
  broker-fetch_job cs id w = broker-or_load cs id _ _

  abbrev committed : Message → S.queue.Broker → S.queue.Broker
  committed msg b = (S.queue.commit_message msg b).1

  broker-run_found :
      (cs : CacheService) (msg : Message) (o : Option Job) (w : World)
      → (run_found cs msg o w).1.broker ≡ committed msg w.broker
  unfolding run_found acknowledge
  broker-run_found cs msg none w = refl
  broker-run_found cs msg (some j) w = ap (committed msg) (broker-run_job cs j w)

  broker-process_parsed :
      (cs : CacheService) (msg : Message) (r : Result Uuid) (w : World)
      → (process_parsed cs msg r w).1.broker ≡ committed msg w.broker
  unfolding process_parsed acknowledge
  broker-process_parsed cs msg (err e) w = refl
  broker-process_parsed cs msg (ok id) w =
      broker-run_found cs msg _ _ ∙ ap (committed msg) (broker-fetch_job cs id w)

  -- Whatever the message holds and whatever fails, the only call that handling a message makes of
  -- the queue is one commit of that message: a message is acknowledged also if its identifier
  -- cannot be read, if its job is not found, and if saving the job's new state failed.
  pub broker-process_job :
      (cs : CacheService) (msg : Message) (w : World)
      → (process_job cs msg w).1.broker ≡ (S.queue.commit_message msg w.broker).1
  unfolding process_job
  broker-process_job cs msg w = broker-process_parsed cs msg _ w
