-- ===== src/Services/Monad.antt =====
-- The state of a run and its monad.
use parallelis_distributed_e.Base.{ℕ, suc, Str, Result}
use parallelis_distributed_e.Model.{Time, Uuid, Job}
use parallelis_distributed_e.Services.Database.{Gorm}
use parallelis_distributed_e.Services.Cache.{Redis}
use parallelis_distributed_e.Services.Queue.{Kafka}

-- The libraries, and what the program takes of other packages: `uuid.Parse`, `UUID.String`, and
-- `json.Marshal`, `json.Unmarshal` at the type of jobs.
pub record Services : Type 1 where
  pub database : Gorm
  pub cache : Redis
  pub queue : Kafka
  pub parse_uuid : Str → Result Uuid
  pub uuid_text : Uuid → Str
  pub marshal : Job → Result Str
  pub unmarshal : Str → Result Job

-- `clock` is what the calls of `time.Now` will return, in order, and `fresh_ids` what those of
-- `uuid.New` will: any sequences at all.
pub record World ⦃S : Services⦄ : Type 0 where
  pub tables : S.database.Tables
  pub store : S.cache.Store
  pub broker : S.queue.Broker
  pub clock : ℕ → Time
  pub fresh_ids : ℕ → Uuid

module _ ⦃S : Services⦄ where
  abbrev pub Exec : Type 0 → Type 0
  Exec A = World → A × World

  infixl 5 ◌>>=◌ ◌>>◌
  abbrev pub ◌>>=◌ : {A B : Type 0} → Exec A → (A → Exec B) → Exec B
  ◌>>=◌ m f w = f (m w).0 (m w).1

  abbrev pub ◌>>◌ : {A B : Type 0} → Exec A → Exec B → Exec B
  ◌>>◌ m k w = k (m w).1

  abbrev pub pure : {A : Type 0} → A → Exec A
  pure a w = (a, w)

  -- `time.Now()`
  abbrev pub now : Exec Time
  now w = (w.clock 0, record w { clock = λ n. w.clock (suc n) })

  -- `uuid.New()`
  abbrev pub new_uuid : Exec Uuid
  new_uuid w = (w.fresh_ids 0, record w { fresh_ids = λ n. w.fresh_ids (suc n) })

  -- A call of one library changes its part of the state.
  abbrev pub on_database : {A : Type 0} → (S.database.Tables → A × S.database.Tables) → Exec A
  on_database f w = ((f w.tables).0, record w { tables = (f w.tables).1 })

  abbrev pub on_cache : {A : Type 0} → (S.cache.Store → A × S.cache.Store) → Exec A
  on_cache f w = ((f w.store).0, record w { store = (f w.store).1 })

  abbrev pub on_queue : {A : Type 0} → (S.queue.Broker → A × S.queue.Broker) → Exec A
  on_queue f w = ((f w.broker).0, record w { broker = (f w.broker).1 })
