-- ===== src/Examples/Cached.antt =====
-- A cache that has a job: its clearing, and a cache that can only be read.
use parallelis_distributed_e.Base.{
  ◌+◌, ◌++◌, false, ◌≡◌, refl, inr, none, some, Str, bytes, List, [], ◌∷◌, ok, str_eq, starts_with,
  arith,
}
use parallelis_distributed_e.Model.{Job, pending}
use parallelis_distributed_e.Services.{Redis, CacheLaws, Services, ServiceLaws, World}
use parallelis_distributed_e.Memory.{memory, memory_laws, empty_world}
use parallelis_distributed_e.Memory.Rows.{row}
use parallelis_distributed_e.Memory.Keys.{keys, value, keys_laws}
use parallelis_distributed_e.Memory.Codec.{text_of}
use parallelis_distributed_e.CacheService.{
  job_cache_key, decode_reply, decoded, get_job, clear_all_job_caches,
}
use parallelis_distributed_e.CacheService.Clearing.{
  listed, after_listing, get_job-clear_all_job_caches,
}
use parallelis_distributed_e.JobWorker.{process_job}
use parallelis_distributed_e.System.Turns.{Turn, polled, delivered, turns}
use parallelis_distributed_e.System.Stale.{stale_copy}
use parallelis_distributed_e.Examples.Runs.{cache, message}
use parallelis_distributed_e.Examples.Variants.{no_success}
use parallelis_distributed_e.Examples.Willing.{willing_rows, willing_rows_laws}
use parallelis_distributed_e.Examples.Delivery.{refund_job}

abbrev cached_world : World
cached_world = record empty_world {
  store = record {
    strings = (bytes "job:" ++ 1 ∷ [], text_of refund_job) ∷ (bytes "other", bytes "x") ∷ [];
    hashes = [];
    texts = [];
    down = false;
  };
}

listed_job : listed memory_laws cached_world ≡ ok ((bytes "job:" ++ 1 ∷ []) ∷ [])
unfolding starts_with
listed_job = refl

deleted :
    (k : Str) (rest : List Str)
    → ◌≡◌ {A = List Str} ((bytes "job:" ++ 1 ∷ []) ∷ []) (k ∷ rest)
    → (keys.del (k ∷ rest) (after_listing memory_laws cached_world)).0 ≡ none
deleted k rest e = refl

get_job-clear_all_job_caches_example : (get_job 1 (clear_all_job_caches cached_world).1).0 ≡ none
get_job-clear_all_job_caches_example =
    get_job-clear_all_job_caches memory_laws 1 ((bytes "job:" ++ 1 ∷ []) ∷ []) cached_world
      listed_job deleted

-- Redis refuses writes.
abbrev read_only : Str
read_only = bytes "READONLY You can't write against a read only replica."

abbrev replica_keys : Redis
replica_keys = record keys {
  set = λ k v d s. (some read_only, s);
  del = λ ks s. (some read_only, s);
}

abbrev replica_laws : CacheLaws replica_keys
replica_laws = record {
  value = value;
  get_sound = keys_laws.get_sound;
  value-get = keys_laws.value-get;
  value-set = λ k u l v d s e. inr e;
  value-set_ok = λ k u v d s e. no_success _ _ _ refl e;
  value-del = λ ks l v s e. e;
  value-del_ok = λ ks l s e. no_success _ _ _ refl e;
  value-hget = keys_laws.value-hget;
  value-hincr_by = keys_laws.value-hincr_by;
  value-exec = keys_laws.value-exec;
  value-keys = keys_laws.value-keys;
  keys_complete = keys_laws.keys_complete;
}

abbrev replica : Services
replica = record memory { database = willing_rows; cache = replica_keys }

abbrev replica_service_laws : ServiceLaws replica
replica_service_laws = record {
  database = willing_rows_laws;
  cache = replica_laws;
  codec = record {
    unmarshal-marshal = memory_laws.codec.unmarshal-marshal;
    parse_uuid-uuid_text = memory_laws.codec.parse_uuid-uuid_text;
  };
}

abbrev stale_world : World ⦃S = replica⦄
stale_world = record {
  tables = record { jobs = refund_job ∷ []; faults = [] };
  store = cached_world.store;
  broker = empty_world.broker;
  clock = empty_world.clock;
  fresh_ids = empty_world.fresh_ids;
}

kept_copy : (get_job ⦃S = replica⦄ 1 stale_world).0 ≡ some refund_job
unfolding get_job job_cache_key decode_reply decoded str_eq
kept_copy = refl

abbrev four_tries : List Turn
four_tries = delivered ∷ polled ∷ delivered ∷ delivered ∷ delivered ∷ []

stale_copy_example :
    (k : Job) × (row
        (process_job ⦃S = replica⦄ cache message
          (turns ⦃S = replica⦄ cache message four_tries stale_world)).1.tables
        1
      ≡ some k)
    × (k.attempts ≡ 0 + 1)
    × (k.status ≡ pending)
stale_copy_example =
    stale_copy ⦃S = replica⦄ replica_service_laws (λ j t. refl) (λ k s. refl) (λ k v d s. refl)
      (λ ks s. refl) (bytes "REFUND") refund_job cache message four_tries stale_world refl kept_copy
      refl (omega arith) (omega arith) (omega arith)
