-- ===== src/Lifecycle/Api.antt =====
-- The handlers of the API and the rate limiter keep such a property of what the database and the
-- cache hold.
use parallelis_distributed_e.Base.{
  ℕ, ◌≡◌, some, sym, ◌∙◌, Bool-cases, inl, inr, [], Str, str_eq, Result, ok, err, List, ◌∷◌, lt_int,
}
use parallelis_distributed_e.Model.{
  Uuid, JobStatus, Job, pending, running, completed, failed, dead_letter,
}
use parallelis_distributed_e.Services.{Services, World, ServiceLaws}
use parallelis_distributed_e.Dto.{JobRequest}
use parallelis_distributed_e.Repository.{find_by_id, find_by_client_id, count_by_status}
use parallelis_distributed_e.CacheService.{job_pattern, clear_keys, clear_all_job_caches}
use parallelis_distributed_e.JobService.{get_job, get_jobs_by_client, count_jobs_by_status}
use parallelis_distributed_e.RateLimitService.{
  RateLimitService, Bucket, idle, active, load_bucket, admit, is_allowed, get_remaining_requests,
  reset_rate_limit,
}
use parallelis_distributed_e.JobController.{
  created_response, create_allowed, create_refused, create_limited, create_bound,
  create_job_handler, get_parsed_job, get_job_handler, get_jobs_by_client_handler,
  get_stats_handler,
}
use parallelis_distributed_e.Lifecycle.{Invariant}
use parallelis_distributed_e.Lifecycle.Stores
use parallelis_distributed_e.Lifecycle.Operations.{now-Everywhere, create_job-Everywhere}

module _ ⦃S : Services⦄ (laws : ServiceLaws S) {P : Job → Type 0} {Fresh : Uuid → Type 0}
    (inv : Invariant P Fresh) where
  open laws use {database.{row}, cache.{value}}

  abbrev Everywhere : World → Type 0
  Everywhere = Stores.Everywhere laws inv

  -- A store with no key that the former one lacks.
  pub store-Everywhere :
      (store : S.cache.Store) (w : World)
      → ((key text : Str) → value store key ≡ some text → value w.store key ≡ some text)
      → Everywhere w
      → Everywhere (record w { store = store })
  store-Everywhere store w kept good = record {
    rows = good.rows;
    cached = λ l v j e p. good.cached l v j (kept l v e) p;
    fresh = good.fresh;
  }

  load_bucket-Everywhere :
      (at : ℕ) (key : Str) (w : World) → Everywhere w → Everywhere (load_bucket at key w).1
  unfolding load_bucket
  load_bucket-Everywhere at key w good =
      store-Everywhere _ _ (λ l v e. laws.cache.value-hget key _ l v _ e)
        (store-Everywhere _ w (λ l v e. laws.cache.value-hget key _ l v _ e) good)

  admit-Everywhere :
      (s : RateLimitService) (key : Str) (at : ℕ) (b : Bucket) (w : World)
      → Everywhere w
      → Everywhere (admit s key at b w).1
  unfolding admit
  admit-Everywhere s key at idle w good =
      store-Everywhere _ w (λ l v e. laws.cache.value-exec _ l v _ e) good
  admit-Everywhere s key at (active count reset) w good =
      elim (Bool-cases (lt_int count s.max_requests)) [
        | inl under ↦
            rw under
              (store-Everywhere _ w (λ l v e. laws.cache.value-hincr_by key _ l v 1 _ e) good)
        | inr over ↦ rw over good
      ]

  is_allowed-Everywhere :
      (s : RateLimitService) (client_id : Str) (w : World)
      → Everywhere w
      → Everywhere (is_allowed s client_id w).1
  unfolding is_allowed
  is_allowed-Everywhere s client_id w good = elim (Bool-cases s.enabled) [
    | inl on ↦
        rw on (
          admit-Everywhere _ _ _ _ _
            (load_bucket-Everywhere _ _ _ (now-Everywhere laws inv w good)))
    | inr off ↦ rw off good
  ]

  get_remaining_requests-Everywhere :
      (s : RateLimitService) (client_id : Str) (w : World)
      → Everywhere w
      → Everywhere (get_remaining_requests s client_id w).1
  unfolding get_remaining_requests
  get_remaining_requests-Everywhere s client_id w good = elim (Bool-cases s.enabled) [
    | inl on ↦ rw on (load_bucket-Everywhere _ _ _ (now-Everywhere laws inv w good))
    | inr off ↦ rw off good
  ]

  pub reset_rate_limit-Everywhere :
      (client_id : Str) (w : World) → Everywhere w → Everywhere (reset_rate_limit client_id w).1
  unfolding reset_rate_limit
  reset_rate_limit-Everywhere client_id w good = Stores.del-Everywhere laws inv _ w good

  created_response-Everywhere :
      (s : RateLimitService) (client_id : Str) (r : Result Job) (w : World)
      → Everywhere w
      → Everywhere (created_response s client_id r w).1
  unfolding created_response
  created_response-Everywhere s client_id (err e) w good = good
  created_response-Everywhere s client_id (ok j) w good =
      get_remaining_requests-Everywhere s client_id w good

  create_bound-Everywhere :
      (s : RateLimitService) (client_id : Str) (r : Result JobRequest) (w : World)
      → Everywhere w
      → Everywhere (create_bound s client_id r w).1
  unfolding create_bound create_limited create_allowed create_refused
  create_bound-Everywhere s client_id (err e) w good = good
  create_bound-Everywhere s client_id (ok request) w good =
      let limited = is_allowed-Everywhere s client_id w good in
      elim (Bool-cases (is_allowed s client_id w).0) [
        | inl yes' ↦ rw yes' (
            created_response-Everywhere s client_id _ _
              (create_job-Everywhere laws inv client_id request _ limited))
        | inr no' ↦ rw no' (get_remaining_requests-Everywhere s client_id _ limited)
      ]

  pub create_job_handler-Everywhere :
      (s : RateLimitService) (client_id : Str) (r : Result JobRequest) (w : World)
      → Everywhere w
      → Everywhere (create_job_handler s client_id r w).1
  unfolding create_job_handler
  create_job_handler-Everywhere s client_id r w good = elim (Bool-cases (str_eq client_id [])) [
    | inl anonymous ↦ rw anonymous good
    | inr named ↦ rw named (create_bound-Everywhere s client_id r w good)
  ]

  get_parsed_job-Everywhere :
      (r : Result Uuid) (w : World) → Everywhere w → Everywhere (get_parsed_job r w).1
  unfolding get_parsed_job get_job find_by_id
  get_parsed_job-Everywhere (err e) w good = good
  get_parsed_job-Everywhere (ok id) w good = Stores.first-Everywhere laws inv _ w good

  pub get_job_handler-Everywhere :
      (id_text : Str) (w : World) → Everywhere w → Everywhere (get_job_handler id_text w).1
  unfolding get_job_handler
  get_job_handler-Everywhere id_text w good = get_parsed_job-Everywhere _ w good

  pub get_jobs_by_client_handler-Everywhere :
      (client_id : Str) (w : World)
      → Everywhere w
      → Everywhere (get_jobs_by_client_handler client_id w).1
  unfolding get_jobs_by_client_handler get_jobs_by_client find_by_client_id
  get_jobs_by_client_handler-Everywhere client_id w good = elim (Bool-cases (str_eq client_id [])) [
    | inl anonymous ↦ rw anonymous good
    | inr named ↦ rw named (Stores.find-Everywhere laws inv _ w good)
  ]

  count_jobs_by_status-Everywhere :
      (status : JobStatus) (w : World) → Everywhere w → Everywhere (count_jobs_by_status status w).1
  unfolding count_jobs_by_status count_by_status
  count_jobs_by_status-Everywhere status w good = record {
    rows = λ id j e. good.rows id j (sym (laws.database.row-count _ w.tables id) ∙ e);
    cached = good.cached;
    fresh = good.fresh;
  }

  pub get_stats_handler-Everywhere : (w : World) → Everywhere w → Everywhere (get_stats_handler w).1
  unfolding get_stats_handler
  get_stats_handler-Everywhere w good = count_jobs_by_status-Everywhere dead_letter _ (
      count_jobs_by_status-Everywhere failed _ (
        count_jobs_by_status-Everywhere completed _ (
          count_jobs_by_status-Everywhere running _
            (count_jobs_by_status-Everywhere pending w good))))

  clear_keys-Everywhere :
      (r : Result (List Str)) (w : World) → Everywhere w → Everywhere (clear_keys r w).1
  unfolding clear_keys
  clear_keys-Everywhere (err e) w good = good
  clear_keys-Everywhere (ok []) w good = good
  clear_keys-Everywhere (ok (k ∷ ks)) w good = Stores.del-Everywhere laws inv _ w good

  pub clear_all_job_caches-Everywhere :
      (w : World) → Everywhere w → Everywhere (clear_all_job_caches w).1
  unfolding clear_all_job_caches
  clear_all_job_caches-Everywhere w good =
      clear_keys-Everywhere _ _
        (store-Everywhere _ w (λ l v e. laws.cache.value-keys job_pattern l v _ e) good)
