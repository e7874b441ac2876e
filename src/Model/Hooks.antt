-- ===== src/Model/Hooks.antt =====
-- model/Job.go: the GORM hooks, and when they leave a job alone.
use parallelis_distributed_e.Base.{◌==◌, ◌≡◌, ◌≢◌, Option, none, some, if◌then◌else◌, arith}
use parallelis_distributed_e.Model.JobRow.{Uuid, uuid_nil, Job}
use parallelis_distributed_e.Model.Clock.{Time}

-- `if j.ScheduledAt == nil { now := time.Now(); j.ScheduledAt = &now }`
abbrev or_now : Option Time → Time → Option Time
or_now none now = some now
or_now (some t) now = some t

-- `BeforeCreate`, with the identifier and the time that it obtains if it asks for them. The
-- source's assignment of 0 to `Attempts` where it is 0 is without effect.
unfoldable pub before_create : Uuid → Time → Job → Job
before_create fresh now j = record j {
  id = (if j.id == uuid_nil then fresh else j.id);
  scheduled_at = or_now j.scheduled_at now;
  max_retries = (if j.max_retries == 0 then 3 else j.max_retries);
}

-- `BeforeUpdate`
unfoldable pub before_update : Time → Job → Job
before_update now j = record j { scheduled_at = or_now j.scheduled_at now }

-- A job on which the hooks have nothing to fill in.
pub record IsFilled (j : Job) : Type 0 where
  pub named : j.id ≢ uuid_nil
  pub scheduled : j.scheduled_at ≢ none
  pub budgeted : j.max_retries ≢ 0

pub before_create-IsFilled :
    (fresh : Uuid) (now : Time) (j : Job) → IsFilled j → before_create fresh now j ≡ j
unfolding before_create
before_create-IsFilled fresh now j h = ground arith

pub before_update-IsFilled : (now : Time) (j : Job) → IsFilled j → before_update now j ≡ j
unfolding before_update
before_update-IsFilled now j h = ground arith
