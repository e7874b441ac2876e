-- ===== src/JobController.antt =====
-- controller/JobController.go: the handlers of the REST API, from what gin reads of a request to the
-- response.
pub mod Create
pub mod Lookup
use parallelis_distributed_e.Base.{
  ℕ, List, [], ◌∷◌, map, Str, bytes, Result, ok, err, str_eq, if◌then◌else◌,
}
use parallelis_distributed_e.Model.{
  Job, Uuid, pending, running, completed, failed, dead_letter, status_text,
}
use parallelis_distributed_e.Services.{Services, Exec, ◌>>=◌, pure}
use parallelis_distributed_e.Strconv.{format_int}
use parallelis_distributed_e.Dto.{JobRequest, JobResponse, job_response_from}
use parallelis_distributed_e.JobService
use parallelis_distributed_e.JobService.{create_job, get_jobs_by_client, count_jobs_by_status}
use parallelis_distributed_e.RateLimitService.{RateLimitService, is_allowed, get_remaining_requests}

-- The JSON bodies that the handlers send.
-- `RegisterRoutes`: the handlers by method and path.
pub data Method : Type 0 where
  get post : Method

pub data Handler : Type 0 where
  create_job_route get_stats_route health_route get_job_route get_jobs_by_client_route : Handler

unfoldable pub register_routes : List (Method × Str × Handler)
register_routes =
    (post, bytes "", create_job_route)
    ∷ (get, bytes "/stats", get_stats_route)
    ∷ (get, bytes "/health", health_route)
    ∷ (get, bytes "/:id", get_job_route)
    ∷ (get, bytes "", get_jobs_by_client_route)
    ∷ []

pub data Body : Type 0 where
  empty : Body
  error : Str → Body
  error_details : Str → Str → Body
  error_id : Str → Str → Body
  job_body : JobResponse → Body
  jobs_body : List JobResponse → Body
  stats_body : List (Str × ℕ) → Body
  health_body : Str → Str → Body

pub record Response : Type 0 where
  pub code : ℕ
  pub headers : List (Str × Str)
  pub body : Body

abbrev reply : ℕ → Body → Response
reply code body = record { code = code; headers = []; body = body }

-- The two rate limit headers; the limit is the source's literal.
unfoldable pub rate_headers : ℕ → List (Str × Str)
rate_headers remaining =
    (bytes "X-RateLimit-Limit", bytes "100")
    ∷ (bytes "X-RateLimit-Remaining", format_int remaining)
    ∷ []

unfoldable pub jobs_response : Result (List Job) → Response
jobs_response (err e) = reply 500 (error (bytes "Failed to retrieve jobs"))
jobs_response (ok rows) = reply 200 (jobs_body (map job_response_from rows))

module _ ⦃S : Services⦄ where
  -- The end of `CreateJob`, with what the service gives
  unfoldable pub created_response : RateLimitService → Str → Result Job → Exec Response
  created_response limits client_id (err e) =
      pure (reply 500 (error (bytes "Failed to create job")))
  created_response limits client_id (ok job) = do
    remaining ← get_remaining_requests limits client_id
    pure (record {
      code = 202;
      headers = rate_headers remaining;
      body = job_body (job_response_from job);
    })

  unfoldable pub create_allowed : RateLimitService → Str → JobRequest → Exec Response
  create_allowed limits client_id request = do
    created ← create_job client_id request
    created_response limits client_id created

  -- Its refusal.
  unfoldable pub create_refused : RateLimitService → Str → Exec Response
  create_refused limits client_id = do
    remaining ← get_remaining_requests limits client_id
    pure (record { code = 429; headers = rate_headers remaining; body = empty })

  unfoldable pub create_limited : RateLimitService → Str → JobRequest → Exec Response
  create_limited limits client_id request = do
    allowed ← is_allowed limits client_id
    if allowed then create_allowed limits client_id request else create_refused limits client_id

  unfoldable pub create_bound : RateLimitService → Str → Result JobRequest → Exec Response
  create_bound limits client_id (err e) = pure (reply 400 (error_details (bytes "Invalid input") e))
  create_bound limits client_id (ok request) = create_limited limits client_id request

  -- `CreateJob`: the header `X-Client-Id` ("" if it is missing), and what `ShouldBindJSON` makes of
  -- the request's body.
  unfoldable pub create_job_handler : RateLimitService → Str → Result JobRequest → Exec Response
  create_job_handler limits client_id bound =
      if str_eq client_id []
      then pure (reply 400 (error (bytes "X-Client-Id header is required")))
      else create_bound limits client_id bound

  unfoldable pub known_response : Uuid → Result Job → Response
  known_response id (err e) = reply 404 (error_id (bytes "Job not found") (S.uuid_text id))
  known_response id (ok job) = reply 200 (job_body (job_response_from job))

  unfoldable pub get_parsed_job : Result Uuid → Exec Response
  get_parsed_job (err e) = pure (reply 400 (error (bytes "Invalid job ID format")))
  get_parsed_job (ok id) = do found ← JobService.get_job id; pure (known_response id found)

  -- `GetJob`, for the path parameter `id`
  unfoldable pub get_job_handler : Str → Exec Response
  get_job_handler id_text = get_parsed_job (S.parse_uuid id_text)

  -- `GetJobsByClient`, for the query parameter `clientId` ("" if it is missing)
  unfoldable pub get_jobs_by_client_handler : Str → Exec Response
  get_jobs_by_client_handler client_id =
      if str_eq client_id []
      then pure (reply 400 (error (bytes "clientId query parameter is required")))
      else do jobs ← get_jobs_by_client client_id; pure (jobs_response jobs)

  -- `GetStats`
  unfoldable pub get_stats_handler : Exec Response
  get_stats_handler = do
    waiting ← count_jobs_by_status pending
    busy ← count_jobs_by_status running
    done ← count_jobs_by_status completed
    lost ← count_jobs_by_status failed
    dead ← count_jobs_by_status dead_letter
    pure (
        reply 200 (
          stats_body (
            (status_text pending, waiting)
            ∷ (status_text running, busy)
            ∷ (status_text completed, done)
            ∷ (status_text failed, lost)
            ∷ (status_text dead_letter, dead)
            ∷ [])))

  -- `Health`
  unfoldable pub health_handler : Exec Response
  health_handler = pure (reply 200 (health_body (bytes "UP") (bytes "job-processor-api")))
