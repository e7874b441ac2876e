-- ===== src/System/Soundness.antt =====
-- What the system holds is sound after any run.
use parallelis_distributed_e.Base.{◌≡◌, some, none, Str}
use parallelis_distributed_e.Model.{Uuid, Job}
use parallelis_distributed_e.Services.{Services, World, ServiceLaws}
use parallelis_distributed_e.Lifecycle.{IsSound, Invariant, sound}
use parallelis_distributed_e.Lifecycle.Stores
use parallelis_distributed_e.Lifecycle.Stores.{Everywhere}
use parallelis_distributed_e.Lifecycle.Operations
use parallelis_distributed_e.Lifecycle.Polls
use parallelis_distributed_e.Lifecycle.Api
use parallelis_distributed_e.System.{
  Config, Action, post, get_one, get_list, get_stats, poll, deliver, clear_caches, reset_limit,
  perform, Step, act, forget, churn, Reach, here, next,
}

module _ ⦃S : Services⦄ (laws : ServiceLaws S) (c : Config) {P : Job → Type 0}
    {Fresh : Uuid → Type 0} (inv : Invariant P Fresh) where
  pub perform-Everywhere :
      (a : Action) (w : World) → Everywhere laws inv w → Everywhere laws inv (perform c a w)
  unfolding perform
  perform-Everywhere (post client_id bound) w good =
      Api.create_job_handler-Everywhere laws inv c.limits client_id bound w good
  perform-Everywhere (get_one id_text) w good =
      Api.get_job_handler-Everywhere laws inv id_text w good
  perform-Everywhere (get_list client_id) w good =
      Api.get_jobs_by_client_handler-Everywhere laws inv client_id w good
  perform-Everywhere get_stats w good = Api.get_stats_handler-Everywhere laws inv w good
  perform-Everywhere poll w good = Polls.schedule_jobs-Everywhere laws inv w good
  perform-Everywhere (deliver msg) w good =
      Operations.process_job-Everywhere laws inv c.cache msg w good
  perform-Everywhere clear_caches w good = Api.clear_all_job_caches-Everywhere laws inv w good
  perform-Everywhere (reset_limit client_id) w good =
      Api.reset_rate_limit-Everywhere laws inv client_id w good

  pub Step-Everywhere :
      {w u : World} → Step laws c w u → Everywhere laws inv w → Everywhere laws inv u
  Step-Everywhere (act a) good = perform-Everywhere a _ good
  Step-Everywhere (forget store kept) good = Api.store-Everywhere laws inv store _ kept good
  Step-Everywhere (churn broker) good = Operations.broker-Everywhere laws inv broker _ good

  pub Reach-Everywhere :
      {v w : World} → Reach laws c v w → Everywhere laws inv v → Everywhere laws inv w
  Reach-Everywhere here good = good
  Reach-Everywhere (next r s) good = Step-Everywhere s (Reach-Everywhere r good)

module _ ⦃S : Services⦄ (laws : ServiceLaws S) (c : Config) where
  -- If the database of the first world has no row and its cache no string, then after any run every
  -- row is sound: its retry budget is 3, it has a time to run at, its status is not FAILED, a
  -- PENDING or RUNNING job has fewer attempts than the budget, a DEAD_LETTER job has not, and a
  -- COMPLETED or DEAD_LETTER job has its completion time.
  rows-IsSound :
      {v w : World}
      → ((id : Uuid) → laws.database.row v.tables id ≡ none)
      → ((key : Str) → laws.cache.value v.store key ≡ none)
      → Reach laws c v w
      → (id : Uuid) (j : Job) → laws.database.row w.tables id ≡ some j
      → IsSound j
  rows-IsSound no_rows no_keys r =
      (Reach-Everywhere laws c sound r
        (Stores.Everywhere-empty laws sound no_rows no_keys (λ n. tt))).rows
