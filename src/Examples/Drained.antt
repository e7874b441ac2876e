-- ===== src/Examples/Drained.antt =====
-- A queue in memory that its reader empties, and a job on its way through it.
use parallelis_distributed_e.Base.{
  ◌+◌, ◌≡◌, refl, sym, none, some, Str, bytes, List, [], ◌∷◌, ◌++◌, map, Result, ok, err, arith,
}
use mathlib.Core.List.{map-append, append-nil}
use parallelis_distributed_e.Model.{Job, completed}
use parallelis_distributed_e.Services.{Message, Kafka, QueueLaws, Services, ServiceLaws, World}
use parallelis_distributed_e.Memory.{memory}
use parallelis_distributed_e.Memory.Rows.{row}
use parallelis_distributed_e.JobScheduler.{
  schedule_jobs, schedule_found, schedule_all, schedule_job, mark_published,
}
use parallelis_distributed_e.Repository.{save, find_by_status_and_scheduled_at_before}
use parallelis_distributed_e.Dto.{job_response_from}
use parallelis_distributed_e.JobController.{job_body, get_job_handler}
use parallelis_distributed_e.JobWorker.{consume_loop}
use parallelis_distributed_e.System.Drained.{due_job_done}
use parallelis_distributed_e.Examples.Runs.{cache, config, message, waiting_job}
use parallelis_distributed_e.Examples.Variants.{memory_reads_up}
use parallelis_distributed_e.Examples.Willing.{
  willing_rows, willing_keys, willing_rows_laws, willing_keys_laws, willing_laws, willing_finds,
  waiting_world,
}

-- The reader takes the first message.
abbrev taken : List Message → Result Message × List Message
taken [] = (err (bytes "no message"), [])
taken (m ∷ ms) = (ok m, ms)

abbrev line : Kafka
line = record {
  Broker = List Message;
  write_message = λ m b. (none, b ++ m ∷ []);
  fetch_message = taken;
  commit_message = λ m b. (none, b);
  close = λ b. (none, b);
}

abbrev values : List Message → List Str
values = map (λ (m : Message). m.value)

line_next :
    (v : Str) (vs : List Str) (b : List Message)
    → values b ≡ v ∷ vs
    → (m : Message) × ((taken b).0 ≡ ok m) × (m.value ≡ v) × (values (taken b).1 ≡ vs)
line_next v vs [] e = absurd (ground arith)
line_next v vs (m ∷ b) e = (m, refl, ground arith, ground arith)

abbrev line_laws : QueueLaws line
line_laws = record {
  waiting = values;
  waiting-write = λ m b e.
      (values b, [], sym (append-nil (values b)), map-append (λ (x : Message). x.value) b (m ∷ []));
  fetch_next = line_next;
  waiting-commit = λ m b. refl;
}

abbrev lined : Services
lined = record memory { database = willing_rows; cache = willing_keys; queue = line }

abbrev lined_laws : ServiceLaws lined
lined_laws = record {
  database = willing_rows_laws;
  cache = willing_keys_laws;
  codec = record {
    unmarshal-marshal = willing_laws.codec.unmarshal-marshal;
    parse_uuid-uuid_text = willing_laws.codec.parse_uuid-uuid_text;
  };
}

-- A message of another job waits before it.
abbrev lined_world : World ⦃S = lined⦄
lined_world = record {
  tables = waiting_world.tables;
  store = waiting_world.store;
  broker = record message { value = bytes "no identifier" } ∷ [];
  clock = waiting_world.clock;
  fresh_ids = λ n. n + 2;
}

due_job_done_example :
    (i : Job) × (row
        (consume_loop ⦃S = lined⦄ cache 2 (schedule_jobs ⦃S = lined⦄ lined_world).1).1.tables
        1
      ≡ some i)
    × (i.status ≡ completed)
    × (let (r, u) =
          get_job_handler ⦃S = lined⦄
            (1 ∷ [])
            (consume_loop ⦃S = lined⦄ cache 2 (schedule_jobs ⦃S = lined⦄ lined_world).1).1 in
        (r.code ≡ 200) × (r.body ≡ job_body (job_response_from i)))
unfolding schedule_jobs schedule_found find_by_status_and_scheduled_at_before schedule_all
    schedule_job mark_published save
due_job_done_example =
    due_job_done ⦃S = lined⦄ lined_laws line_laws memory_reads_up (λ j t. refl) willing_finds
      (λ m b. refl) config waiting_job 2 lined_world (λ n. (λ e. omega arith, λ e. omega arith))
      (λ key. refl) refl refl (λ name e. cc) refl (omega arith)
