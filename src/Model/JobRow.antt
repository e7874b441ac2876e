-- ===== src/Model/JobRow.antt =====
-- model/Job.go, model/JobStatus.go and model/JobType.go: the record and the words of its lifecycle.
use parallelis_distributed_e.Base.{ℕ, Bool, Option, none, some, Str, bytes, true, false}
use parallelis_distributed_e.Model.Clock.{Time}

abbrev pub Uuid : Type 0
Uuid = ℕ

-- `uuid.Nil`
abbrev pub uuid_nil : Uuid
uuid_nil = 0

pub data JobStatus : Type 0 where
  pending running completed failed dead_letter : JobStatus

abbrev pub status_text : JobStatus → Str
status_text pending = bytes "PENDING"
status_text running = bytes "RUNNING"
status_text completed = bytes "COMPLETED"
status_text failed = bytes "FAILED"
status_text dead_letter = bytes "DEAD_LETTER"

-- A job type is a string; a request may carry any, and `other` stands for one that is neither of the
-- two words.
pub data JobType : Type 0 where
  payment_process email_confirmation : JobType
  other : Str → JobType

abbrev pub type_text : JobType → Str
type_text payment_process = bytes "PAYMENT_PROCESS"
type_text email_confirmation = bytes "EMAIL_CONFIRMATION"
type_text (other name) = name

pub record Job : Type 0 where
  pub id : Uuid
  pub client_id : Str
  pub type : JobType
  pub status : JobStatus
  pub payload : Str
  pub attempts : ℕ
  pub max_retries : ℕ
  pub created_at : Time
  pub scheduled_at : Option Time
  pub completed_at : Option Time
  pub error_message : Option Str
  pub updated_at : Time

abbrev pub table_name : Str
table_name = bytes "jobs"

abbrev pub status_eq : JobStatus → JobStatus → Bool
status_eq pending pending = true
status_eq running running = true
status_eq completed completed = true
status_eq failed failed = true
status_eq dead_letter dead_letter = true
status_eq _ _ = false

-- `NewJob`, with the identifier and the time that it obtains.
unfoldable pub new_job : Uuid → Time → Str → JobType → Str → Job
new_job id now client_id type payload = record {
  id = id;
  client_id = client_id;
  type = type;
  status = pending;
  payload = payload;
  attempts = 0;
  max_retries = 3;
  created_at = now;
  scheduled_at = some now;
  completed_at = none;
  error_message = none;
  updated_at = 0;
}
