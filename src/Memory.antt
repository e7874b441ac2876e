-- ===== src/Memory.antt =====
-- The libraries in memory: a value of the parameter for which all that the theorems assume holds,
-- and on which the definitions run.
pub mod Rows
pub mod Keys
pub mod Log
pub mod Traced
pub mod Codec
pub use Rows.{Table}
pub use Keys.{Store}
pub use Log.{Broker}
use Rows.{rows, rows_laws}
use Keys.{keys, keys_laws}
use Log.{log}
use Codec.{marshal, unmarshal, unmarshal-marshal_job}
use parallelis_distributed_e.Base.{
  ◌+◌, ◌≡◌, refl, true, false, [], ◌∷◌, Str, bytes, Result, ok, err,
}
use parallelis_distributed_e.Model.{Uuid}
use parallelis_distributed_e.Services.{Services, World, ServiceLaws}

abbrev parse_uuid : Str → Result Uuid
parse_uuid (n ∷ []) = ok n
parse_uuid _ = err (bytes "invalid UUID")

instance abbrev pub memory : Services
memory = record {
  database = rows;
  cache = keys;
  queue = log;
  parse_uuid = parse_uuid;
  uuid_text = λ id. id ∷ [];
  marshal = marshal;
  unmarshal = unmarshal;
}

abbrev pub memory_laws : ServiceLaws memory
memory_laws = record {
  database = rows_laws;
  cache = keys_laws;
  codec = record { unmarshal-marshal = unmarshal-marshal_job; parse_uuid-uuid_text = λ id. refl };
}

-- Nothing stored, all up; the clock stands at the start of 2024 and identifiers count from 1.
abbrev pub empty_world : World
empty_world = record {
  tables = record { jobs = []; faults = [] };
  store = record { strings = []; hashes = []; texts = []; down = false };
  broker = record { published = []; committed = []; down = false };
  clock = λ n. 63839664000000000000;
  fresh_ids = λ n. n + 1;
}
