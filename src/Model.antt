-- ===== src/Model.antt =====
-- model/Job.go, model/JobStatus.go and model/JobType.go: the job record and its hooks.
-- `time.Time` counts nanoseconds since the start of the year 1, the zero value of Go's type; an
-- `int` is a 64-bit pattern (Base/Word.antt); a `uuid.UUID` is the number that its 16 bytes spell.
mod Clock
mod JobRow
mod Hooks
pub use Clock.{Time, Duration, second, unix_epoch, unix-add_second}
unfoldable pub use Clock.{add_duration, unix, seconds, since}
pub use JobRow.{
  Uuid, uuid_nil, JobStatus, pending, running, completed, failed, dead_letter, status_text,
  status_eq, JobType, payment_process, email_confirmation, other, type_text, Job, table_name,
}
unfoldable pub use JobRow.{new_job}
pub use Hooks.{IsFilled, before_create-IsFilled, before_update-IsFilled}
unfoldable pub use Hooks.{before_create, before_update}
