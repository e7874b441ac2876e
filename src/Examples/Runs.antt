-- ===== src/Examples/Runs.antt =====
-- Concrete requests and runs, over the libraries in memory.
use parallelis_distributed_e.Base.{
  Str, true, some, none, List, [], ◌∷◌, bytes, ok, add_int, sub_int, mul_int, lt_int, str_eq,
}
use parallelis_distributed_e.Model.{
  Job, pending, completed, payment_process, add_duration, unix, seconds, before_create,
}
use parallelis_distributed_e.Services.{World, Message}
use parallelis_distributed_e.Dto.{JobRequest}
use parallelis_distributed_e.Repository.{save, find_by_id, find_by_status_and_scheduled_at_before}
use parallelis_distributed_e.CacheService.{
  CacheService, job_cache_key, decoded, decode_reply, get_job, cache_text, cache_job,
  invalidate_job, update_job,
}
use parallelis_distributed_e.JobService.{requested_job, create_job}
use parallelis_distributed_e.JobScheduler.{
  running_job, job_message, mark_published, schedule_job, schedule_all, schedule_found,
  schedule_jobs,
}
use parallelis_distributed_e.JobWorker.{
  backoff_seconds, failed_job, completed_job, finish, complete, process_by_type,
  process_job_internal, handle_job_failure, cache_loaded, or_load, fetch_job, settle, run_job,
  acknowledge, run_found, process_parsed, process_job,
}
use parallelis_distributed_e.RateLimitService.{
  RateLimitService, rate_limit_key, read_bucket, start_commands, load_bucket, admit, is_allowed,
  remaining, get_remaining_requests,
}
use parallelis_distributed_e.JobController.{
  created_response, create_allowed, create_refused, create_limited, create_bound,
  create_job_handler,
}
use parallelis_distributed_e.System.{Config, Action, post, poll, deliver, perform}
use parallelis_distributed_e.Memory.{memory}

abbrev pub limits : RateLimitService
limits = record { enabled = true; max_requests = 100; window_seconds = 60 }

abbrev pub cache : CacheService
cache = record { job_cache_ttl_minutes = 15 }

abbrev pub config : Config
config = record { limits = limits; cache = cache }

abbrev pub request : JobRequest
request = record { type = payment_process; payload = bytes "order_1|a@b.c|$1" }

abbrev pub customer : Str
customer = bytes "c"

-- The message of the first job.
abbrev pub message : Message
message = record { key = customer; value = 1 ∷ []; partition = 0 }

-- The world after some actions; to unfold this name is to unfold all that they call.
unfoldable pub after : List Action → World → World
unfolding perform process_job process_parsed run_found acknowledge run_job settle fetch_job or_load
    cache_loaded handle_job_failure process_job_internal process_by_type complete finish
    completed_job failed_job backoff_seconds schedule_jobs schedule_found schedule_all schedule_job
    mark_published job_message running_job create_job_handler create_bound create_limited
    create_allowed create_refused created_response create_job requested_job is_allowed admit
    load_bucket read_bucket start_commands rate_limit_key remaining get_remaining_requests save
    find_by_id find_by_status_and_scheduled_at_before get_job cache_job cache_text job_cache_key
    decoded decode_reply invalidate_job update_job add_int sub_int mul_int lt_int str_eq
    add_duration unix seconds before_create
after [] w = w
after (a ∷ as') w = after as' (perform config a w)

abbrev pub lifecycle : List Action
lifecycle = post customer (ok request) ∷ poll ∷ deliver message ∷ []

-- The row that these actions leave.
abbrev pub done_job : Job
done_job = record {
  id = 1;
  client_id = customer;
  type = payment_process;
  status = completed;
  payload = bytes "order_1|a@b.c|$1";
  attempts = 0;
  max_retries = 3;
  created_at = 63839664000000000000;
  scheduled_at = some 63839664000000000000;
  completed_at = some 63839664000000000000;
  error_message = none;
  updated_at = 63839664000000000000;
}

-- The row of the request before it runs.
abbrev pub waiting_job : Job
waiting_job = record done_job { status = pending; completed_at = none; updated_at = 0 }
