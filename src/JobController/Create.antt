-- ===== src/JobController/Create.antt =====
-- The outcomes of a request to create a job.
use parallelis_distributed_e.Base.{
  ℕ, ◌≡◌, ◌≢◌, refl, ap, ◌∙◌, ◌⊎◌, inl, inr, true, false, Option, some, none, [], Str, str_eq,
  str_eq→eq, str_eq_refl, Result, ok, err, ◌==◌, if◌then◌else◌, arith, Bool-cases,
}
use parallelis_distributed_e.Model.{Uuid, Time, pending, Job, before_update, before_create}
use parallelis_distributed_e.Services.{
  Stored, stamped, on_update, on_create, Services, World, ServiceLaws,
}
use parallelis_distributed_e.Dto.{JobRequest, job_response_from}
use parallelis_distributed_e.Repository.{save}
use parallelis_distributed_e.JobService.{requested_job, saved_or_error, create_job}
use parallelis_distributed_e.RateLimitService.{
  RateLimitService, Bucket, load_bucket, admit, is_allowed, get_remaining_requests,
}
use parallelis_distributed_e.JobController.{
  Response, job_body, created_response, create_allowed, create_refused, create_limited,
  create_bound, create_job_handler,
}

module _ ⦃S : Services⦄ where
  -- The rate limiter does not use the database.
  tables-admit :
      (s : RateLimitService) (key : Str) (at : ℕ) (b : Bucket) (w : World)
      → (admit s key at b w).1.tables ≡ w.tables
  unfolding admit
  tables-admit s key at b w = ground arith

  pub tables-is_allowed :
      (s : RateLimitService) (client_id : Str) (w : World)
      → (is_allowed s client_id w).1.tables ≡ w.tables
  unfolding is_allowed load_bucket
  tables-is_allowed s client_id w = elim (Bool-cases s.enabled) [
    | inl on ↦ simp on (tables-admit s _ _ _ _)
    | inr off ↦ simp off
  ]

  pub tables-get_remaining_requests :
      (s : RateLimitService) (client_id : Str) (w : World)
      → (get_remaining_requests s client_id w).1.tables ≡ w.tables
  unfolding get_remaining_requests load_bucket
  tables-get_remaining_requests s client_id w = elim (Bool-cases s.enabled) [
    | inl on ↦ simp on
    | inr off ↦ simp off
  ]

-- A job as a request asks for it.
pub record Requested (client_id : Str) (request : JobRequest) (k : Job) : Type 0 where
  pub owner : k.client_id ≡ client_id
  pub kind : k.type ≡ request.type
  pub content : k.payload ≡ request.payload
  pub waiting : k.status ≡ pending
  pub untried : k.attempts ≡ 0
  pub budget : k.max_retries ≡ 3

Stored-Requested :
    (id : Uuid) (at : Time) (client_id : Str) (request : JobRequest) (k : Job)
    → Stored (requested_job id at client_id request) k
    → Requested client_id request k
unfolding requested_job before_update before_create
Stored-Requested id at client_id request k (stamped c u e) = rw e (ground arith)
Stored-Requested id at client_id request k (on_update n c u e) = rw e (ground arith)
Stored-Requested id at client_id request k (on_create f n c u e) = rw e (ground arith)

empty_is_empty : str_eq [] [] ≡ true
empty_is_empty = str_eq_refl []

module _ ⦃S : Services⦄ (laws : ServiceLaws S) where
  open laws use {database.{row}}

  -- The save of the job of a request that the rate limiter let through.
  abbrev pub attempt :
      RateLimitService → Str → JobRequest → World → (Option Str × Job) × S.database.Tables
  attempt s client_id request w =
      let v = (is_allowed s client_id w).1 in
      S.database.save (requested_job (v.fresh_ids 0) (v.clock 0) client_id request) v.tables

  -- What a request may lead to: a response and a world after.
  pub data Outcome (s : RateLimitService) (client_id : Str) (bound : Result JobRequest) (w : World)
      : Response → World → Type 0 where
    rejected :
        {r : Response} {u : World}
        → (client_id ≡ []) ⊎ ((e : Str) × (bound ≡ err e))
        → r.code ≡ 400
        → u ≡ w
        → Outcome s client_id bound w r u
    limited :
        {r : Response} {u : World} (request : JobRequest)
        → client_id ≢ []
        → bound ≡ ok request
        → (is_allowed s client_id w).0 ≡ false
        → r.code ≡ 429
        → u.tables ≡ w.tables
        → Outcome s client_id bound w r u
    unsaved :
        {r : Response} {u : World} (request : JobRequest) (e : Str)
        → client_id ≢ []
        → bound ≡ ok request
        → (is_allowed s client_id w).0 ≡ true
        → (attempt s client_id request w).0.0 ≡ some e
        → r.code ≡ 500
        → ((id : Uuid) → row u.tables id ≡ row w.tables id)
        → Outcome s client_id bound w r u
    accepted :
        {r : Response} {u : World} (request : JobRequest) (k : Job)
        → client_id ≢ []
        → bound ≡ ok request
        → (is_allowed s client_id w).0 ≡ true
        → (attempt s client_id request w).0 ≡ (none, k)
        → Requested client_id request k
        → r.code ≡ 202
        → r.body ≡ job_body (job_response_from k)
        → ((id : Uuid) → row u.tables id ≡ (if k.id == id then some k else row w.tables id))
        → Outcome s client_id bound w r u

  -- The end of the handler, for the result of the save and the world after it.
  created-Outcome :
      (s : RateLimitService) (client_id : Str) (request : JobRequest) (w u : World)
      (saved : Option Str × Job)
      → client_id ≢ []
      → (is_allowed s client_id w).0 ≡ true
      → (attempt s client_id request w).0 ≡ saved
      → Requested client_id request saved.1
      → ((e : Str) → saved.0 ≡ some e → (id : Uuid) → row u.tables id ≡ row w.tables id)
      → (saved.0 ≡ none
          → (id : Uuid)
          → row u.tables id ≡ (if saved.1.id == id then some saved.1 else row w.tables id))
      → let (r, v) = created_response s client_id (saved_or_error saved) u in
        Outcome s client_id (ok request) w r v
  unfolding created_response
  created-Outcome s client_id request w u (some e, k) named passed tried asked lost stored =
      unsaved request e named refl passed (ap (λ (p : Option Str × Job). p.0) tried) refl
        (lost e refl)
  created-Outcome s client_id request w u (none, k) named passed tried asked lost stored =
      accepted request k named refl passed tried asked refl refl
        (λ id. ap (λ t. row t id) (tables-get_remaining_requests s client_id u) ∙ stored refl id)

  allowed-Outcome :
      (s : RateLimitService) (client_id : Str) (request : JobRequest) (w : World)
      → client_id ≢ []
      → (is_allowed s client_id w).0 ≡ true
      → let (r, u) = create_allowed s client_id request (is_allowed s client_id w).1 in
        Outcome s client_id (ok request) w r u
  unfolding create_allowed create_job save
  allowed-Outcome s client_id request w named passed =
      let v = (is_allowed s client_id w).1 in
      let same = tables-is_allowed s client_id w in
      let job = requested_job (v.fresh_ids 0) (v.clock 0) client_id request in
      created-Outcome s client_id request w _ (S.database.save job v.tables).0 named passed refl
        (Stored-Requested _ _ client_id request _ (laws.database.save_stored job v.tables))
        (λ e failed id.
          laws.database.row-save_err job v.tables id e failed ∙ ap (λ t. row t id) same)
        (λ done id.
          laws.database.row-save_ok job v.tables id done
          ∙ ap
              (λ t.
                if (S.database.save job v.tables).0.1.id == id
                then some (S.database.save job v.tables).0.1
                else row t id)
              same)

  bound-Outcome :
      (s : RateLimitService) (client_id : Str) (bound : Result JobRequest) (w : World)
      → client_id ≢ []
      → let (r, u) = create_bound s client_id bound w in Outcome s client_id bound w r u
  unfolding create_bound create_limited create_refused
  bound-Outcome s client_id (err e) w named = rejected (inr (e, refl)) refl refl
  bound-Outcome s client_id (ok request) w named = elim (Bool-cases (is_allowed s client_id w).0) [
    | inl passed ↦ rw passed (allowed-Outcome s client_id request w named passed)
    | inr refused ↦ rw refused (
        limited request named refl refused refl
          (tables-get_remaining_requests s client_id _ ∙ tables-is_allowed s client_id w))
  ]

  -- A request to create a job ends in one of four ways, each under its own condition. In 400 with
  -- nothing changed, if it names no client or its body was not bound. Otherwise in 429 with the
  -- database unchanged, if the rate limiter refuses it. Otherwise one save is tried, of the job as
  -- requested: in 500 with every row as it was, if that save fails; in 202, if it succeeds, and then
  -- the response shows that job, PENDING, with no attempt made and a budget of 3, with the client,
  -- type and payload of the request, and exactly that job was written.
  pub create-Outcome :
      (s : RateLimitService) (client_id : Str) (bound : Result JobRequest) (w : World)
      → let (r, u) = create_job_handler s client_id bound w in Outcome s client_id bound w r u
  unfolding create_job_handler
  create-Outcome s client_id bound w = elim (Bool-cases (str_eq client_id [])) [
    | inl anonymous ↦ rw anonymous (rejected (inl (str_eq→eq client_id [] anonymous)) refl refl)
    | inr named ↦ rw named (
        bound-Outcome s client_id bound w
          (λ e. cc (named, ap (λ c. str_eq c []) e, empty_is_empty)))
  ]
