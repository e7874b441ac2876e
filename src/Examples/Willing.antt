-- ===== src/Examples/Willing.antt =====
-- Libraries in memory that are up: no write fails.
use parallelis_distributed_e.Base.{
  ◌≡◌, ◌⊎◌, refl, none, some, Str, ok, List, [], ◌∷◌, ◌++◌, str_eq→eq, str_eq_refl, arith,
}
use parallelis_distributed_e.Model.{Duration, Job}
use parallelis_distributed_e.Services.{
  Query, Gorm, DatabaseLaws, Redis, Kafka, CacheLaws, Services, ServiceLaws, World, stamped,
}
use parallelis_distributed_e.Memory.{Table, Store, memory, memory_laws, empty_world}
use parallelis_distributed_e.Memory.Rows.{rows, row, rows_laws}
use parallelis_distributed_e.Memory.Keys.{keys, value, keys_laws}
use parallelis_distributed_e.Memory.Log.{log}
use parallelis_distributed_e.Examples.Runs.{waiting_job}
use parallelis_distributed_e.Examples.Variants.{no_success}

-- A database in memory whose writes do not fail.
abbrev pub willing_rows : Gorm
willing_rows = record rows { save = λ j t. ((none, j), record t { jobs = j ∷ t.jobs }) }

-- A cache and a queue that do not refuse writes.
abbrev pub willing_keys : Redis
willing_keys = record keys { set = λ k v d s. (none, record s { strings = (k, v) ∷ s.strings }) }

abbrev pub willing_log : Kafka
willing_log = record log {
  write_message = λ m b. (none, record b { published = b.published ++ m ∷ [] });
}

pub willing_set :
    (k u l v : Str) (d : Duration) (s : Store)
    → value (willing_keys.set k u d s).1 l ≡ some v
    → ((l ≡ k) × (v ≡ u)) ⊎ (value s l ≡ some v)
willing_set k u l v d s e = ground (arith, str_eq→eq k l)

pub willing_set_ok :
    (k u v : Str) (d : Duration) (s : Store)
    → (willing_keys.set k u d s).0 ≡ none
    → value (willing_keys.set k u d s).1 k ≡ some v
    → v ≡ u
willing_set_ok k u v d s done e = ground (arith, str_eq_refl k)

abbrev pub willing_keys_laws : CacheLaws willing_keys
willing_keys_laws = record {
  value = value;
  get_sound = keys_laws.get_sound;
  value-get = keys_laws.value-get;
  value-set = willing_set;
  value-set_ok = willing_set_ok;
  value-del = keys_laws.value-del;
  value-del_ok = keys_laws.value-del_ok;
  value-hget = keys_laws.value-hget;
  value-hincr_by = keys_laws.value-hincr_by;
  value-exec = keys_laws.value-exec;
  value-keys = keys_laws.value-keys;
  keys_complete = keys_laws.keys_complete;
}

abbrev pub willing : Services
willing = record memory { database = willing_rows; cache = willing_keys; queue = willing_log }

abbrev pub willing_rows_laws : DatabaseLaws willing_rows
willing_rows_laws = record {
  row = row;
  row_id = rows_laws.row_id;
  save_stored = λ j t. stamped j.created_at j.updated_at refl;
  row-save_ok = λ j t id e. refl;
  row-save_err = λ j t id m e. no_success none m _ e refl;
  first_sound = rows_laws.first_sound;
  row-first = rows_laws.row-first;
  find_sound = rows_laws.find_sound;
  find_complete = rows_laws.find_complete;
  row-find = rows_laws.row-find;
  row-count = rows_laws.row-count;
}

abbrev pub willing_laws : ServiceLaws willing
willing_laws = record {
  database = willing_rows_laws;
  cache = willing_keys_laws;
  codec = record {
    unmarshal-marshal = memory_laws.codec.unmarshal-marshal;
    parse_uuid-uuid_text = memory_laws.codec.parse_uuid-uuid_text;
  };
}

abbrev pub waiting_world : World ⦃S = willing⦄
waiting_world = record {
  tables = record { jobs = waiting_job ∷ []; faults = [] };
  store = empty_world.store;
  broker = empty_world.broker;
  clock = empty_world.clock;
  fresh_ids = empty_world.fresh_ids;
}

pub willing_finds : (q : Query) (t : Table) → (js : List Job) × ((willing_rows.find q t).0 ≡ ok js)
willing_finds q t = (_, refl)
