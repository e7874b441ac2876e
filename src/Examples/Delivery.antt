-- ===== src/Examples/Delivery.antt =====
-- A job on its way through the scheduler and a worker.
use parallelis_distributed_e.Base.{ℕ, ◌≡◌, ◌≢◌, refl, some, Str, bytes, List, [], ◌∷◌, Memᴰ, arith}
use parallelis_distributed_e.Model.{Job, other, running, completed}
use parallelis_distributed_e.Services.{Message, World}
use parallelis_distributed_e.Memory.Rows.{row}
use parallelis_distributed_e.Memory.Codec.{text_of}
use parallelis_distributed_e.CacheService.{decode_reply, get_job}
use parallelis_distributed_e.JobScheduler.{job_message, schedule_jobs}
use parallelis_distributed_e.JobScheduler.Poll.{publish_all}
use parallelis_distributed_e.JobScheduler.Complete.{poll_publishes}
use parallelis_distributed_e.JobWorker.{process_job, consume_loop}
use parallelis_distributed_e.JobWorker.Completion.{delivered_again}
use parallelis_distributed_e.JobWorker.Loop.{fetch_and_commit, broker-consume_loop}
use parallelis_distributed_e.System.Turns.{Turn, polled, delivered, deliveries, waiting, turns}
use parallelis_distributed_e.System.Retries.{Tried, retries_end}
use parallelis_distributed_e.Examples.Runs.{cache, message, done_job, waiting_job}
use parallelis_distributed_e.Examples.Variants.{memory_reads_up}
use parallelis_distributed_e.Examples.Willing.{willing, willing_laws, waiting_world, willing_finds}

poll_publishes_example :
    let w = (schedule_jobs ⦃S = willing⦄ waiting_world).1 in
    ((k : Job) × (row w.tables 1 ≡ some k) × (k.status ≡ running))
    × ((ms : List Message) × Memᴰ (job_message ⦃S = willing⦄ waiting_job) ms
        × (w.broker ≡ publish_all ⦃S = willing⦄ ms waiting_world.broker))
poll_publishes_example =
    poll_publishes ⦃S = willing⦄ willing_laws (λ j t. refl) willing_finds (λ m b. refl) waiting_job
      waiting_world (omega arith) refl refl

-- The job has run, and its message comes once more.
abbrev done_world : World ⦃S = willing⦄
done_world = record waiting_world {
  tables = record { jobs = done_job ∷ []; faults = [] };
  clock = λ n. n;
}

payment_done : (name : Str) → done_job.type ≢ other name
payment_done name e = cc

done_not_cached :
    (c : Job)
    → (get_job ⦃S = willing⦄ 1 done_world).0 ≡ some c
    → (c.id ≡ 1) × (c.type ≡ done_job.type)
unfolding get_job decode_reply
done_not_cached c e = cc

delivered_again_example :
    (i : Job) × (row (process_job ⦃S = willing⦄ cache message done_world).1.tables 1 ≡ some i)
    × (i.status ≡ completed)
    × (i.completed_at ≡ some 0)
delivered_again_example =
    delivered_again ⦃S = willing⦄ willing_laws memory_reads_up (λ j t. refl) cache message done_job
      done_world refl refl done_not_cached payment_done (omega arith)

broker-consume_loop_example :
    (consume_loop ⦃S = willing⦄ cache 2 done_world).1.broker
    ≡ fetch_and_commit ⦃S = willing⦄ 2 done_world.broker
broker-consume_loop_example = broker-consume_loop ⦃S = willing⦄ cache 2 done_world

-- A job of a type that no worker knows.
abbrev pub refund_job : Job
refund_job = record waiting_job { type = other (bytes "REFUND") }

abbrev refund_world : World ⦃S = willing⦄
refund_world = record waiting_world { tables = record { jobs = refund_job ∷ []; faults = [] } }

abbrev WasTried : ℕ → World ⦃S = willing⦄ → Type 0
WasTried =
    Tried ⦃S = willing⦄ willing_laws memory_reads_up (λ j t. refl) (λ k v d s. refl)
      (λ j. (text_of j, refl)) 1 (bytes "REFUND") (omega arith)

untried : WasTried 0 refund_world
unfolding get_job decode_reply
untried = record {
  job = refund_job;
  stored = refl;
  tried = (refl, refl, refl, refl);
  stage = waiting (omega arith) refl;
  cached = λ c e. cc;
  no_nil = refl;
}

abbrev three_tries : List Turn
three_tries = polled ∷ delivered ∷ delivered ∷ polled ∷ delivered ∷ polled ∷ []

retries_end_example : WasTried 3 (turns ⦃S = willing⦄ cache message three_tries refund_world)
unfolding deliveries
retries_end_example =
    retries_end ⦃S = willing⦄ willing_laws memory_reads_up (λ j t. refl) (λ k v d s. refl)
      (λ j. (text_of j, refl)) 1 (bytes "REFUND") (omega arith) cache message three_tries 0
      refund_world refl (omega arith) untried
