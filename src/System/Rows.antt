-- ===== src/System/Rows.antt =====
-- Requests to the API leave the row of a job alone.
use parallelis_distributed_e.Base.{
  ◌≡◌, ◌≢◌, refl, sym, ap, subst, List, ◌∷◌, arith, if◌then◌else◌, ◌∙◌, inl, inr, Bool-cases,
  Option-cases, Option, some, [], Str, str_eq, Result, ok, err, ◌==◌, ==→eq,
}
use parallelis_distributed_e.Model.{Uuid, uuid_nil, Job}
use parallelis_distributed_e.Services.{Services, World, ServiceLaws}
use parallelis_distributed_e.Dto.{JobRequest}
use parallelis_distributed_e.Repository.{save, find_by_id, find_by_client_id, count_by_status}
use parallelis_distributed_e.JobService.{
  requested_job, create_job, get_job, get_jobs_by_client, count_jobs_by_status,
}
use parallelis_distributed_e.RateLimitService.{RateLimitService, load_bucket, admit, is_allowed}
use parallelis_distributed_e.CacheService.{clear_keys, clear_all_job_caches}
use parallelis_distributed_e.JobController.{
  created_response, create_allowed, create_refused, create_limited, create_bound,
  create_job_handler, get_parsed_job, get_job_handler, get_jobs_by_client_handler,
  get_stats_handler,
}
use parallelis_distributed_e.JobController.Create.{tables-is_allowed, tables-get_remaining_requests}
use parallelis_distributed_e.Lifecycle.Hooked.{id-Stored}

module _ ⦃S : Services⦄ where
  ids-is_allowed :
      (s : RateLimitService) (client_id : Str) (w : World)
      → (is_allowed s client_id w).1.fresh_ids ≡ w.fresh_ids
  unfolding is_allowed load_bucket admit
  ids-is_allowed s client_id w = ground arith

module _ ⦃S : Services⦄ (laws : ServiceLaws S) (id : Uuid) where
  open laws use {database.{row}}

  abbrev of : World → Option Job
  of w = row w.tables id

  row-save_other : (j : Job) (w : World) → j.id ≢ uuid_nil → j.id ≢ id → of (save j w).1 ≡ of w
  unfolding save
  row-save_other j w named other = elim (Option-cases (S.database.save j w.tables).0.0) [
    | inr (e, failed) ↦ laws.database.row-save_err j w.tables id e failed
    | inl done ↦
        laws.database.row-save_ok j w.tables id done
        ∙ not_here
            (λ here. other (sym (id-Stored (laws.database.save_stored j w.tables) named) ∙ here))
  ]
    where
      k : Job
      k = (S.database.save j w.tables).0.1

      not_here : k.id ≢ id → (if k.id == id then some k else of w) ≡ of w
      not_here apart = elim (Bool-cases (k.id == id)) [
        | inl here ↦ absurd (apart (==→eq k.id id here))
        | inr off ↦ rw off refl
      ]

  row-created_response :
      (s : RateLimitService) (client_id : Str) (r : Result Job) (w : World)
      → of (created_response s client_id r w).1 ≡ of w
  unfolding created_response
  row-created_response s client_id (err e) w = refl
  row-created_response s client_id (ok j) w =
      ap (λ t. row t id) (tables-get_remaining_requests s client_id w)

  -- Neither the nil identifier nor that of the job is the next one.
  abbrev pub NewId : Uuid → Type 0
  NewId new = (new ≢ uuid_nil) × (new ≢ id)

  row-create_allowed :
      (s : RateLimitService) (client_id : Str) (request : JobRequest) (w : World)
      → NewId (w.fresh_ids 0)
      → of (create_allowed s client_id request w).1 ≡ of w
  unfolding create_allowed create_job requested_job
  row-create_allowed s client_id request w (named, other) =
      row-created_response s client_id _ _ ∙ row-save_other _ _ named other

  row-create_bound :
      (s : RateLimitService) (client_id : Str) (r : Result JobRequest) (w : World)
      → NewId (w.fresh_ids 0)
      → of (create_bound s client_id r w).1 ≡ of w
  unfolding create_bound create_limited create_refused
  row-create_bound s client_id (err e) w new = refl
  row-create_bound s client_id (ok request) w new =
      let u = (is_allowed s client_id w).1 in
      let limited = ap (λ t. row t id) (tables-is_allowed s client_id w) in
      elim (Bool-cases (is_allowed s client_id w).0) [
        | inl yes' ↦ rw yes' (
            row-create_allowed s client_id request u
              (subst (λ f. NewId (f 0)) (sym (ids-is_allowed s client_id w)) new)
            ∙ limited)
        | inr no' ↦
            rw no' (ap (λ t. row t id) (tables-get_remaining_requests s client_id u) ∙ limited)
      ]

  -- Another job is created, or none.
  pub row-create_job_handler :
      (s : RateLimitService) (client_id : Str) (r : Result JobRequest) (w : World)
      → NewId (w.fresh_ids 0)
      → of (create_job_handler s client_id r w).1 ≡ of w
  unfolding create_job_handler
  row-create_job_handler s client_id r w new = elim (Bool-cases (str_eq client_id [])) [
    | inl anonymous ↦ rw anonymous refl
    | inr named ↦ rw named (row-create_bound s client_id r w new)
  ]

  row-get_parsed_job : (r : Result Uuid) (w : World) → of (get_parsed_job r w).1 ≡ of w
  unfolding get_parsed_job get_job find_by_id
  row-get_parsed_job (err e) w = refl
  row-get_parsed_job (ok own) w = laws.database.row-first _ w.tables id

  pub row-get_job_handler : (id_text : Str) (w : World) → of (get_job_handler id_text w).1 ≡ of w
  unfolding get_job_handler
  row-get_job_handler id_text w = row-get_parsed_job _ w

  pub row-get_jobs_by_client_handler :
      (client_id : Str) (w : World) → of (get_jobs_by_client_handler client_id w).1 ≡ of w
  unfolding get_jobs_by_client_handler get_jobs_by_client find_by_client_id
  row-get_jobs_by_client_handler client_id w = elim (Bool-cases (str_eq client_id [])) [
    | inl anonymous ↦ rw anonymous refl
    | inr named ↦ rw named (laws.database.row-find _ w.tables id)
  ]

  pub row-get_stats_handler : (w : World) → of (get_stats_handler w).1 ≡ of w
  unfolding get_stats_handler count_jobs_by_status count_by_status
  row-get_stats_handler w =
      laws.database.row-count _ _ id
      ∙ laws.database.row-count _ _ id
      ∙ laws.database.row-count _ _ id
      ∙ laws.database.row-count _ _ id
      ∙ laws.database.row-count _ w.tables id

  row-clear_keys : (r : Result (List Str)) (w : World) → of (clear_keys r w).1 ≡ of w
  unfolding clear_keys
  row-clear_keys (err e) w = refl
  row-clear_keys (ok []) w = refl
  row-clear_keys (ok (k ∷ ks)) w = refl

  pub row-clear_all_job_caches : (w : World) → of (clear_all_job_caches w).1 ≡ of w
  unfolding clear_all_job_caches
  row-clear_all_job_caches w = row-clear_keys _ _
