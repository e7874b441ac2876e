-- ===== src/System/Traces.antt =====
-- Which calls of the queue a step of a worker's loop makes, as a trace of the queue has them.
use parallelis_distributed_e.Base.{◌≡◌, refl, ap, Bool, [], ◌∷◌, ◌++◌, Result, ok, err}
use parallelis_distributed_e.Model.{Uuid, JobType, payment_process, email_confirmation, other, Job}
use parallelis_distributed_e.Services.{Message, Services, World, QueueTrace}
use parallelis_distributed_e.Repository.{save, find_by_id, find_by_status_and_scheduled_at_before}
use parallelis_distributed_e.CacheService.{CacheService, get_job, cache_job, invalidate_job}
use parallelis_distributed_e.CacheService.Frame.{frame-cache_job}
use parallelis_distributed_e.JobWorker.{acknowledge}
use parallelis_distributed_e.System.Threads.{
  Thread, begun, missed, loaded, taken, failing, outdated, uncached, committing, polling, queued,
  sent, ended, begin_parsed, process_taken, advance,
}
use parallelis_distributed_e.System.Pool.{
  Loop, checking, fetching, handling, stopped, step_loop, committed_by, fetched_by,
}

module _ ⦃S : Services⦄ (trace : QueueTrace S.queue) (cs : CacheService) where
  open trace use {fetched, asked}

  broker-begin_parsed :
      (msg : Message) (r : Result Uuid) (w : World) → (begin_parsed msg r w).1.broker ≡ w.broker
  unfolding begin_parsed get_job
  broker-begin_parsed msg (err e) w = refl
  broker-begin_parsed msg (ok id) w = refl

  broker-process_taken :
      (msg : Message) (t : JobType) (job : Job) (w : World)
      → (process_taken msg t job w).1.broker ≡ w.broker
  unfolding process_taken save
  broker-process_taken msg payment_process job w = refl
  broker-process_taken msg email_confirmation job w = refl
  broker-process_taken msg (other name) job w = refl

  broker-cache_job : (job : Job) (w : World) → (cache_job cs job w).1.broker ≡ w.broker
  broker-cache_job job w = ap (λ (u : World). u.broker) (frame-cache_job cs job w)

  fetched-advance : (t : Thread) (w : World) → fetched (advance cs t w).1.broker ≡ fetched w.broker
  unfolding advance find_by_id save invalidate_job acknowledge
      find_by_status_and_scheduled_at_before
  fetched-advance (begun msg) w = ap fetched (broker-begin_parsed msg _ w)
  fetched-advance (missed msg id) w = refl
  fetched-advance (loaded msg job) w = ap fetched (broker-cache_job job w)
  fetched-advance (taken msg job) w = ap fetched (broker-process_taken msg job.type job w)
  fetched-advance (failing msg message job) w = refl
  fetched-advance (outdated msg job) w = refl
  fetched-advance (uncached msg job) w = ap fetched (broker-cache_job job w)
  fetched-advance (committing msg) w = trace.fetched-commit msg w.broker
  fetched-advance polling w = refl
  fetched-advance (queued []) w = refl
  fetched-advance (queued (job ∷ jobs)) w = trace.fetched-write _ w.broker
  fetched-advance (sent job jobs) w = refl
  fetched-advance ended w = refl

  asked-advance :
      (t : Thread) (w : World)
      → asked (advance cs t w).1.broker ≡ committed_by (handling t) ++ asked w.broker
  unfolding advance find_by_id save invalidate_job acknowledge
      find_by_status_and_scheduled_at_before
  asked-advance (begun msg) w = ap asked (broker-begin_parsed msg _ w)
  asked-advance (missed msg id) w = refl
  asked-advance (loaded msg job) w = ap asked (broker-cache_job job w)
  asked-advance (taken msg job) w = ap asked (broker-process_taken msg job.type job w)
  asked-advance (failing msg message job) w = refl
  asked-advance (outdated msg job) w = refl
  asked-advance (uncached msg job) w = ap asked (broker-cache_job job w)
  asked-advance (committing msg) w = trace.asked-commit msg w.broker
  asked-advance polling w = refl
  asked-advance (queued []) w = refl
  asked-advance (queued (job ∷ jobs)) w = trace.asked-write _ w.broker
  asked-advance (sent job jobs) w = refl
  asked-advance ended w = refl

  pub fetched-step_loop :
      (closed : Bool) (l : Loop) (w : World)
      → fetched (step_loop cs closed l w).1.broker ≡ fetched_by l w ++ fetched w.broker
  unfolding step_loop
  fetched-step_loop closed checking w = refl
  fetched-step_loop closed fetching w = trace.fetched-fetch w.broker
  fetched-step_loop closed (handling t) w = fetched-advance t w
  fetched-step_loop closed stopped w = refl

  pub asked-step_loop :
      (closed : Bool) (l : Loop) (w : World)
      → asked (step_loop cs closed l w).1.broker ≡ committed_by l ++ asked w.broker
  unfolding step_loop
  asked-step_loop closed checking w = refl
  asked-step_loop closed fetching w = trace.asked-fetch w.broker
  asked-step_loop closed (handling t) w = asked-advance t w
  asked-step_loop closed stopped w = refl
