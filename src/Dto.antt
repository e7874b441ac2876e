-- ===== src/Dto.antt =====
-- dto/JobRequest.go and dto/JobResponse.go: what the API takes and gives.
use parallelis_distributed_e.Base.{ℕ, ◌++◌, ◌∷◌, Option, none, Str}
use parallelis_distributed_e.Model.{
  Time, Uuid, JobStatus, JobType, payment_process, email_confirmation, Job,
}

pub record JobRequest : Type 0 where
  pub type : JobType
  pub payload : Str

-- `fmt.Sprintf("%s|%s|%s", a, b, c)`
unfoldable pub piped : Str → Str → Str → Str
piped a b c = a ++ (b'|' ∷ (b ++ (b'|' ∷ c)))

unfoldable pub for_payment_process : Str → Str → Str → JobRequest
unfolding piped
for_payment_process order_id customer_email amount = record {
  type = payment_process;
  payload = piped order_id customer_email amount;
}

unfoldable pub for_email_confirmation : Str → Str → Str → JobRequest
unfolding piped
for_email_confirmation order_id customer_email receipt_url = record {
  type = email_confirmation;
  payload = piped order_id customer_email receipt_url;
}

pub record JobResponse : Type 0 where
  pub job_id : Uuid
  pub client_id : Str
  pub type : JobType
  pub status : JobStatus
  pub payload : Str
  pub attempts : ℕ
  pub max_retries : ℕ
  pub created_at : Time
  pub scheduled_at : Option Time
  pub completed_at : Option Time
  pub error_message : Option Str

-- `JobResponseFrom`
unfoldable pub job_response_from : Job → JobResponse
job_response_from job = record {
  job_id = job.id;
  client_id = job.client_id;
  type = job.type;
  status = job.status;
  payload = job.payload;
  attempts = job.attempts;
  max_retries = job.max_retries;
  created_at = job.created_at;
  scheduled_at = job.scheduled_at;
  completed_at = job.completed_at;
  error_message = job.error_message;
}

-- `JobResponseMinimal`: the fields with `omitempty` are left empty.
unfoldable pub job_response_minimal : Job → JobResponse
job_response_minimal job = record {
  job_id = job.id;
  client_id = job.client_id;
  type = job.type;
  status = job.status;
  payload = job.payload;
  attempts = job.attempts;
  max_retries = job.max_retries;
  created_at = job.created_at;
  scheduled_at = none;
  completed_at = none;
  error_message = none;
}
