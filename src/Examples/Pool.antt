-- ===== src/Examples/Pool.antt =====
-- Two goroutines of a worker.
use parallelis_distributed_e.Base.{◌+◌, ◌≤◌, ◌≡◌, refl, length, true, false, Bool, [], ◌∷◌}
use parallelis_distributed_e.Services.{Message, World, Services, ServiceLaws, QueueTrace}
use parallelis_distributed_e.Memory.{memory, memory_laws, empty_world}
use parallelis_distributed_e.Memory.Log.{log}
use parallelis_distributed_e.Memory.Traced.{traced, traced_trace}
use parallelis_distributed_e.Repository.{find_by_status_and_scheduled_at_before}
use parallelis_distributed_e.System.Threads.{
  begun, missed, advance, begin_parsed, after_get, drive, after_query,
}
use parallelis_distributed_e.System.Pool.{
  checking, fetching, handling, stopped, started, step_loop, stop, after_fetch, after_advance,
  count, held,
}
use parallelis_distributed_e.System.Ending.{Ending, shut}
use parallelis_distributed_e.System.Settled.{Running, start, turn, stopping, fetched_settled}
use parallelis_distributed_e.Examples.Runs.{config, message, waiting_job, after}

-- The queue in memory, with a trace of its calls; one message of a job is in it.
abbrev watched : Services
watched = record memory { queue = traced log }

abbrev watched_laws : ServiceLaws watched
watched_laws = record {
  database = memory_laws.database;
  cache = memory_laws.cache;
  codec = record {
    unmarshal-marshal = memory_laws.codec.unmarshal-marshal;
    parse_uuid-uuid_text = memory_laws.codec.parse_uuid-uuid_text;
  };
}

abbrev watched_trace : QueueTrace (traced log)
watched_trace = traced_trace log

abbrev watched_world : World ⦃S = watched⦄
watched_world = record {
  tables = record { jobs = waiting_job ∷ []; faults = [] };
  store = empty_world.store;
  broker = (record { published = message ∷ []; committed = []; down = false }, [], []);
  clock = empty_world.clock;
  fresh_ids = empty_world.fresh_ids;
}

-- One has fetched the message and looked for its job when the worker is stopped; the other ends.
one_stops :
    (u : World ⦃S = watched⦄) × Running ⦃S = watched⦄ watched_laws watched_trace config 2
      watched_world true
      (handling (missed message 1) ∷ stopped ∷ [])
      (message ∷ [])
      []
      u
unfolding started step_loop after_fetch after_advance advance begin_parsed after_get stop drive
    after_query find_by_status_and_scheduled_at_before after
one_stops =
    let tested = turn [] checking (checking ∷ []) _ _ [] [] refl refl refl refl start in
    let fetched =
      turn [] fetching (checking ∷ []) _ _ (message ∷ []) [] refl refl refl refl tested in
    let looked =
      turn [] (handling (begun message)) (checking ∷ []) _ _ [] [] refl refl refl refl fetched in
    let shut = stopping looked in
    (_, turn (handling (missed message 1) ∷ []) checking [] _ _ [] [] refl refl refl refl shut)

fetched_settled_example :
    ((p : Message → Bool)
      → count p (message ∷ [])
        ≡ count p [] + count p (held (handling (missed message 1) ∷ stopped ∷ [])))
    × (length (held (handling (missed message 1) ∷ stopped ∷ [])) ≤ 2)
fetched_settled_example =
    fetched_settled ⦃S = watched⦄ watched_laws watched_trace config 2 one_stops.1
