-- ===== src/System/Limits.antt =====
-- What other clients, the scheduler, the workers and the administrators do leaves the rate limit of
-- a client alone.
use parallelis_distributed_e.Base.{
  ℕ, ◌≡◌, ◌≢◌, refl, ap, ◌∙◌, bytes, append-cancel_left, Bool-cases, inl, inr, Option, List, [],
  ◌∷◌, Memᴰ, Str, Result, ok, err, str_eq,
}
use parallelis_distributed_e.Model.{unix, Uuid, Job}
use parallelis_distributed_e.Services.{Services, World, CounterLaws, SeparationLaws, now}
use parallelis_distributed_e.Dto.{JobRequest}
use parallelis_distributed_e.Repository.{save, find_by_id, find_by_client_id, count_by_status}
use parallelis_distributed_e.JobService.{
  create_job, get_job, get_jobs_by_client, count_jobs_by_status,
}
use parallelis_distributed_e.RateLimitService.{
  RateLimitService, rate_limit_key, is_allowed, get_remaining_requests, reset_rate_limit,
}
use parallelis_distributed_e.RateLimitService.Isolation.{field-is_allowed, field-load_bucket}
use parallelis_distributed_e.JobController.{
  created_response, create_allowed, create_refused, create_limited, create_bound,
  create_job_handler, get_parsed_job, get_job_handler, get_jobs_by_client_handler,
  get_stats_handler,
}
use parallelis_distributed_e.System.{
  Config, Action, post, get_one, get_list, get_stats, poll, deliver, clear_caches, reset_limit,
  perform, perform_all,
}
use parallelis_distributed_e.System.Turns.{store-schedule_jobs}
use parallelis_distributed_e.System.Untouched.{
  not_listed, field_of, field-process_job, field-clear_all_job_caches,
}

-- The action is not one that counts requests of the client, or forgets them.
abbrev pub Spares : Str → Action → Type 0
Spares client_id (post a bound) = a ≢ client_id
Spares client_id (reset_limit a) = a ≢ client_id
Spares client_id (get_one id_text) = Unit
Spares client_id (get_list a) = Unit
Spares client_id get_stats = Unit
Spares client_id poll = Unit
Spares client_id (deliver msg) = Unit
Spares client_id clear_caches = Unit

module _ ⦃S : Services⦄ (counters : CounterLaws S.cache)
    (apart_laws : SeparationLaws S.cache counters) (client_id g : Str) where
  abbrev of : World → Option ℕ
  of = field_of counters apart_laws client_id g

  rate_limit_key-distinct : (a : Str) → a ≢ client_id → rate_limit_key a ≢ rate_limit_key client_id
  unfolding rate_limit_key
  rate_limit_key-distinct a h e = h (append-cancel_left (bytes "rate_limit:") a client_id e)

  field-get_remaining_requests :
      (s : RateLimitService) (a : Str) (w : World) → of (get_remaining_requests s a w).1 ≡ of w
  unfolding get_remaining_requests
  field-get_remaining_requests s a w = elim (Bool-cases s.enabled) [
    | inl on ↦ rw on (
        field-load_bucket counters s (unix (w.clock 0)) (rate_limit_key a)
          (rate_limit_key client_id) g (now w).1)
    | inr off ↦ rw off refl
  ]

  field-created_response :
      (s : RateLimitService) (a : Str) (r : Result Job) (w : World)
      → of (created_response s a r w).1 ≡ of w
  unfolding created_response
  field-created_response s a (err e) w = refl
  field-created_response s a (ok j) w = field-get_remaining_requests s a w

  field-create_allowed :
      (s : RateLimitService) (a : Str) (request : JobRequest) (w : World)
      → of (create_allowed s a request w).1 ≡ of w
  unfolding create_allowed create_job save
  field-create_allowed s a request w = field-created_response s a _ _

  field-create_bound :
      (s : RateLimitService) (a : Str) (r : Result JobRequest) (w : World)
      → a ≢ client_id
      → of (create_bound s a r w).1 ≡ of w
  unfolding create_bound create_limited create_refused
  field-create_bound s a (err e) w other = refl
  field-create_bound s a (ok request) w other =
      let limited = field-is_allowed counters s a client_id g w other in
      elim (Bool-cases (is_allowed s a w).0) [
        | inl yes' ↦ rw yes' (field-create_allowed s a request _ ∙ limited)
        | inr no' ↦ rw no' (field-get_remaining_requests s a _ ∙ limited)
      ]

  field-create_job_handler :
      (s : RateLimitService) (a : Str) (r : Result JobRequest) (w : World)
      → a ≢ client_id
      → of (create_job_handler s a r w).1 ≡ of w
  unfolding create_job_handler
  field-create_job_handler s a r w other = elim (Bool-cases (str_eq a [])) [
    | inl anonymous ↦ rw anonymous refl
    | inr named ↦ rw named (field-create_bound s a r w other)
  ]

  field-get_parsed_job : (r : Result Uuid) (w : World) → of (get_parsed_job r w).1 ≡ of w
  unfolding get_parsed_job get_job find_by_id
  field-get_parsed_job (err e) w = refl
  field-get_parsed_job (ok id) w = refl

  field-get_jobs_by_client_handler :
      (a : Str) (w : World) → of (get_jobs_by_client_handler a w).1 ≡ of w
  unfolding get_jobs_by_client_handler get_jobs_by_client find_by_client_id
  field-get_jobs_by_client_handler a w = elim (Bool-cases (str_eq a [])) [
    | inl anonymous ↦ rw anonymous refl
    | inr named ↦ rw named refl
  ]

  field-perform :
      (c : Config) (a : Action) (w : World) → Spares client_id a → of (perform c a w) ≡ of w
  unfolding perform get_job_handler get_stats_handler count_jobs_by_status count_by_status
      reset_rate_limit
  field-perform c (post a bound) w other = field-create_job_handler c.limits a bound w other
  field-perform c (get_one id_text) w other = field-get_parsed_job _ w
  field-perform c (get_list a) w other = field-get_jobs_by_client_handler a w
  field-perform c get_stats w other = refl
  field-perform c poll w other =
      ap (λ store. counters.field store (rate_limit_key client_id) g) (store-schedule_jobs w)
  field-perform c (deliver msg) w other =
      field-process_job counters apart_laws client_id g c.cache msg w
  field-perform c clear_caches w other =
      field-clear_all_job_caches counters apart_laws client_id g w
  field-perform c (reset_limit a) w other =
      apart_laws.field-del (rate_limit_key a ∷ []) _ g w.store
        (not_listed _ _ (rate_limit_key-distinct a other))

  -- While Redis is up, and whatever the database and the queue answer: requests of other clients,
  -- resets of their limits, lookups, statistics, polls, deliveries of any messages and clearings of
  -- the cache of jobs, however many and in any order, leave the count and the reset time of a client
  -- as they were.
  pub field-perform_all :
      (c : Config) (actions : List Action) (w : World)
      → ((a : Action) → Memᴰ a actions → Spares client_id a)
      → counters.field (perform_all c actions w).store (rate_limit_key client_id) g
        ≡ counters.field w.store (rate_limit_key client_id) g
  unfolding perform_all
  field-perform_all c [] w spared = refl
  field-perform_all c (a ∷ rest) w spared =
      field-perform_all c rest (perform c a w) (λ b m. spared b (Memᴰ.tail m))
      ∙ field-perform c a w (spared a (Memᴰ.head refl))
