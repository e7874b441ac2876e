-- ===== src/System.antt =====
-- The system as a whole: requests, polls and deliveries in any order, with losses in between.
pub mod Delivery
pub mod Turns
pub mod Retries
pub mod Stale
pub mod Pool
pub mod Hands
pub mod Traces
pub mod Ranks
pub mod Settled
pub mod Ending
pub mod Untouched
pub mod Limits
pub mod Threads
pub mod Atomic
pub mod Keeping
pub mod Interleaved
pub mod Identity
pub mod Foreign
pub mod Rows
pub mod Changes
pub mod Completed
pub mod Drained
pub mod Stuck
pub mod Soundness
use parallelis_distributed_e.Base.{◌≡◌, some, List, [], ◌∷◌, Str, Result}
use parallelis_distributed_e.Model.{Uuid, JobStatus, Job}
use parallelis_distributed_e.Services.{Message, Services, World, ServiceLaws}
use parallelis_distributed_e.Dto.{JobRequest}
use parallelis_distributed_e.CacheService.{CacheService, clear_all_job_caches}
use parallelis_distributed_e.RateLimitService.{RateLimitService, reset_rate_limit}
use parallelis_distributed_e.JobWorker.{process_job}
use parallelis_distributed_e.JobScheduler.{schedule_jobs}
use parallelis_distributed_e.JobController.{
  create_job_handler, get_job_handler, get_jobs_by_client_handler, get_stats_handler,
}

pub record Config : Type 0 where
  pub limits : RateLimitService
  pub cache : CacheService

-- What the program does at the prompting of a client, a timer, the queue or an administrator. A
-- message may be delivered at any time, any number of times, whatever it holds.
pub data Action : Type 0 where
  post : Str → Result JobRequest → Action
  get_one get_list : Str → Action
  get_stats : Action
  poll : Action
  deliver : Message → Action
  clear_caches : Action
  reset_limit : Str → Action

module _ ⦃S : Services⦄ where
  unfoldable pub perform : Config → Action → World → World
  perform c (post client_id bound) w = (create_job_handler c.limits client_id bound w).1
  perform c (get_one id_text) w = (get_job_handler id_text w).1
  perform c (get_list client_id) w = (get_jobs_by_client_handler client_id w).1
  perform c get_stats w = (get_stats_handler w).1
  perform c poll w = (schedule_jobs w).1
  perform c (deliver msg) w = (process_job c.cache msg w).1
  perform c clear_caches w = (clear_all_job_caches w).1
  perform c (reset_limit client_id) w = (reset_rate_limit client_id w).1

  -- Actions in the order of the list.
  unfoldable pub perform_all : Config → List Action → World → World
  perform_all c [] w = w
  perform_all c (a ∷ rest) w = perform_all c rest (perform c a w)

  -- A step of the system: an action, or a change outside the program: Redis loses keys, the broker
  -- does what it does.
  pub data Step (laws : ServiceLaws S) (c : Config) : World → World → Type 0 where
    act : {w : World} (a : Action) → Step laws c w (perform c a w)
    forget :
        {w : World} (store : S.cache.Store)
        → ((key text : Str)
            → laws.cache.value store key ≡ some text
            → laws.cache.value w.store key ≡ some text)
        → Step laws c w (record w { store = store })
    churn : {w : World} (broker : S.queue.Broker) → Step laws c w (record w { broker = broker })

  pub data Reach (laws : ServiceLaws S) (c : Config) (v : World) : World → Type 0 where
    here : Reach laws c v v
    next : {w u : World} → Reach laws c v w → Step laws c w u → Reach laws c v u
