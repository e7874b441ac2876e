-- ===== src/Services/Database.antt =====
-- gorm.io/gorm over PostgreSQL, which the program calls: the queries that it sends, and the
-- driver as a parameter.
use parallelis_distributed_e.Base.{
  ℕ, leb, ltb, ◌==◌, ◌≡◌, Bool, true, false, ◌&&◌, Option, none, some, List, Str, str_eq, Result,
}
use parallelis_distributed_e.Model.{
  Time, Uuid, JobStatus, status_eq, Job, before_create, before_update,
}

-- The conditions of the program's queries.
pub data Condition : Type 0 where
  all_rows : Condition
  id_is : Uuid → Condition
  client_id_is : Str → Condition
  status_is : JobStatus → Condition
  scheduled_at_le updated_at_lt : Time → Condition
  both : Condition → Condition → Condition

pub data Order : Type 0 where
  unordered scheduled_at_asc : Order

pub record Query : Type 0 where
  pub condition : Condition
  pub order : Order

abbrev scheduled_le : Option Time → Time → Bool
scheduled_le none t = false
scheduled_le (some s) t = leb s t

-- What a condition means to the database; a comparison with NULL does not hold.
abbrev pub matches : Condition → Job → Bool
matches all_rows j = true
matches (id_is id) j = j.id == id
matches (client_id_is c) j = str_eq j.client_id c
matches (status_is s) j = status_eq j.status s
matches (scheduled_at_le t) j = scheduled_le j.scheduled_at t
matches (updated_at_lt t) j = ltb j.updated_at t
matches (both p q) j = matches p j && matches q j

-- The driver. `save` also returns the job as the call leaves the value behind its pointer, and
-- `tables` is what the connection holds.
pub record Gorm : Type 1 where
  pub Tables : Type 0
  pub save : Job → Tables → (Option Str × Job) × Tables
  pub first : Condition → Tables → Result Job × Tables
  pub find : Query → Tables → Result (List Job) × Tables
  pub count : Condition → Tables → Result ℕ × Tables
  pub delete : Job → Tables → Option Str × Tables

-- How `Save` may change the value that it is given: it runs the model's hooks (for an update or a
-- creation), and the `autoCreateTime` and `autoUpdateTime` columns take the time of the call.
pub data Stored : Job → Job → Type 0 where
  stamped :
      {j k : Job} (created updated : Time)
      → k ≡ record j { created_at = created; updated_at = updated }
      → Stored j k
  on_update :
      {j k : Job} (now created updated : Time)
      → k ≡ record (before_update now j) { created_at = created; updated_at = updated }
      → Stored j k
  on_create :
      {j k : Job} (fresh : Uuid) (now created updated : Time)
      → k ≡ record (before_create fresh now j) { created_at = created; updated_at = updated }
      → Stored j k
