-- ===== src/System/Drained.antt =====
-- From a poll over the queue to the completion of every job that was due.
use parallelis_distributed_e.Base.{
  length, ℕ, zero, suc, ◌≤◌, ◌≡◌, ◌≢◌, refl, sym, ap, ◌∙◌, subst, true, some, none, List, [], ◌∷◌,
  Memᴰ, Str, Result, ok, err, arith,
}
use parallelis_distributed_e.Model.{Uuid, uuid_nil, JobType, other, completed, Job}
use parallelis_distributed_e.Services.{
  Query, Condition, matches, Message, Services, World, ServiceLaws, QueueLaws,
}
use parallelis_distributed_e.JobScheduler.{job_message, schedule_jobs}
use parallelis_distributed_e.JobScheduler.Poll.{due, publish_all}
use parallelis_distributed_e.JobScheduler.Waiting.{published_waits}
use parallelis_distributed_e.JobScheduler.Complete.{poll_publishes}
use parallelis_distributed_e.Dto.{job_response_from}
use parallelis_distributed_e.JobController.{job_body, get_job_handler}
use parallelis_distributed_e.JobController.Lookup
use parallelis_distributed_e.JobWorker.{consume_fetched, consume_loop, process_job}
use parallelis_distributed_e.JobWorker.Acknowledge.{broker-process_job}
use parallelis_distributed_e.Lifecycle.Stores
use parallelis_distributed_e.Lifecycle.Operations
use parallelis_distributed_e.Lifecycle.Polls
use parallelis_distributed_e.System.{Config, deliver, perform}
use parallelis_distributed_e.System.Soundness.{perform-Everywhere}
use parallelis_distributed_e.System.Identity.{asked_invariant, rows_asked}
use parallelis_distributed_e.System.Completed.{
  Stands, IsDone, row-perform, Stands-perform, IsDone-perform, performed,
}

module _ ⦃S : Services⦄ (laws : ServiceLaws S) (queue : QueueLaws S.queue)
    (reads_up : (c : Condition) (t : S.database.Tables) (e : Str) (j : Job)
      → (S.database.first c t).0 ≡ err e
      → matches c j ≡ true
      → laws.database.row t j.id ≢ some j)
    (writes_up : (j : Job) (t : S.database.Tables) → (S.database.save j t).0.0 ≡ none) (c : Config)
    (id : Uuid) (client_id : Str) (type : JobType) (payload : Str)
    (known : (name : Str) → type ≢ other name) where
  open laws use {database.{row}}
  open queue use {waiting}

  abbrev Everywhere : World → Type 0
  Everywhere = Stores.Everywhere laws (asked_invariant id client_id type payload)

  abbrev HasRow : World → Type 0
  HasRow = Stands laws reads_up writes_up c id client_id type payload

  abbrev Done : World → Type 0
  Done = IsDone laws reads_up writes_up c id client_id type payload

  -- A message of any job, fetched or not.
  fetched-Done :
      (r : Result Message) (w : World)
      → Everywhere w
      → Done w
      → Everywhere (consume_fetched c.cache r w).1 × Done (consume_fetched c.cache r w).1
  unfolding consume_fetched perform
  fetched-Done (err e) w good finished = (good, finished)
  fetched-Done (ok msg) w good (k, stored, status) = (
    perform-Everywhere laws c (asked_invariant id client_id type payload) (deliver msg) w good,
    IsDone-perform laws reads_up writes_up c id client_id type payload (deliver msg) k w known good
        stored status
        (row-perform laws reads_up writes_up c id client_id type payload (deliver msg) k w good
          stored),
  )

  IsDone-consume_loop :
      (n : ℕ) (w : World) → Everywhere w → Done w → Done (consume_loop c.cache n w).1
  unfolding consume_loop
  IsDone-consume_loop zero w good finished = finished
  IsDone-consume_loop (suc n) w good finished =
      let (still, after) =
        fetched-Done (S.queue.fetch_message w.broker).0 _
          (Operations.broker-Everywhere laws (asked_invariant id client_id type payload) _ w good)
          finished in
      IsDone-consume_loop n _ still after

  -- The loop after it has fetched a message.
  abbrev Drains : ℕ → Str → World → Type 0
  Drains n v w =
      Everywhere w → HasRow w → Memᴰ v (waiting w.broker) → Done (consume_loop c.cache n w).1

  waiting-perform :
      (m : Message) (w : World) → waiting (perform c (deliver m) w).broker ≡ waiting w.broker
  unfolding perform
  waiting-perform m w =
      ap waiting (broker-process_job c.cache m w) ∙ queue.waiting-commit m w.broker

  handled-Done :
      (n : ℕ) (m : Message) (v : Str) (vs : List Str) (w : World)
      → Everywhere w
      → HasRow w
      → S.parse_uuid v ≡ ok id
      → waiting w.broker ≡ vs
      → Memᴰ v (m.value ∷ vs)
      → Drains n v (perform c (deliver m) w)
      → Done (consume_loop c.cache n (process_job c.cache m w).1).1
  unfolding perform
  handled-Done n m v vs w good (k, stored) parsed left (Memᴰ.head e) drains =
      IsDone-consume_loop n _
        (perform-Everywhere laws c (asked_invariant id client_id type payload) (deliver m) w good)
        (performed laws reads_up writes_up c id client_id type payload m k w known good stored
          (ap S.parse_uuid (sym e) ∙ parsed))
  handled-Done n m v vs w good (k, stored) parsed left (Memᴰ.tail at) drains =
      drains
        (perform-Everywhere laws c (asked_invariant id client_id type payload) (deliver m) w good)
        (Stands-perform laws reads_up writes_up c id client_id type payload (deliver m) k w known
          good stored
          (row-perform laws reads_up writes_up c id client_id type payload (deliver m) k w good
            stored))
        (subst (Memᴰ v) (sym (waiting-perform m w ∙ left)) at)

  drained :
      (n : ℕ) (vs : List Str) (v : Str) (w : World)
      → waiting w.broker ≡ vs
      → length vs ≤ n
      → S.parse_uuid v ≡ ok id
      → Drains n v w
  unfolding consume_loop consume_fetched
  drained n [] v w left enough parsed good stands at = elim (subst (Memᴰ v) left at) [ ]
  drained zero (v0 ∷ vs) v w left enough parsed good stands at = absurd (omega arith)
  drained (suc n) (v0 ∷ vs) v w left enough parsed good stands at =
      let (m, fetched, same, after) = queue.fetch_next v0 vs w.broker left in
      let (k, stored) = stands in
      let u = record w { broker = (S.queue.fetch_message w.broker).1 } in
      let ready =
        Operations.broker-Everywhere laws (asked_invariant id client_id type payload) _ w good in
      subst (λ r. Done (consume_loop c.cache n (consume_fetched c.cache r u).1).1) (sym fetched)
        (handled-Done n m v vs u ready (k, stored) parsed after
          (subst (λ x. Memᴰ v (x ∷ vs)) (sym same) (subst (Memᴰ v) left at))
          (drained n vs v (perform c (deliver m) u) (waiting-perform m u ∙ after) (omega arith)
            parsed))

module _ ⦃S : Services⦄ (laws : ServiceLaws S) (queue : QueueLaws S.queue)
    (reads_up : (c : Condition) (t : S.database.Tables) (e : Str) (j : Job)
      → (S.database.first c t).0 ≡ err e
      → matches c j ≡ true
      → laws.database.row t j.id ≢ some j)
    (writes_up : (j : Job) (t : S.database.Tables) → (S.database.save j t).0.0 ≡ none)
    (finds_up : (q : Query) (t : S.database.Tables)
      → (js : List Job) × ((S.database.find q t).0 ≡ ok js))
    (queue_up : (m : Message) (b : S.queue.Broker) → (S.queue.write_message m b).0 ≡ none)
    (c : Config) where
  open laws use {database.{row}}
  open queue use {waiting}

  message_waits :
      (k : Job) (w : World)
      → ((ms : List Message) × Memᴰ (job_message k) ms
          × ((schedule_jobs w).1.broker ≡ publish_all ms w.broker))
      → Memᴰ (S.uuid_text k.id) (waiting (schedule_jobs w).1.broker)
  unfolding job_message
  message_waits k w (ms, at, sent) =
      subst (λ b. Memᴰ (S.uuid_text k.id) (waiting b)) (sym sent)
        (published_waits queue queue_up ms (job_message k) w.broker at)

  shown :
      (k : Job) (w : World)
      → (i : Job) × (row w.tables k.id ≡ some i) × (i.status ≡ completed)
      → (i : Job) × (row w.tables k.id ≡ some i)
        × (i.status ≡ completed)
        × (let (r, u) = get_job_handler (S.uuid_text k.id) w in
            (r.code ≡ 200) × (r.body ≡ job_body (job_response_from i)))
  shown k w (i, stored, status) =
      let here = laws.database.row_id w.tables k.id i stored in
      (
        i,
        stored,
        status,
        subst
            (λ x.
              let (r, u) = get_job_handler (S.uuid_text x) w in
              (r.code ≡ 200) × (r.body ≡ job_body (job_response_from i)))
            here (Lookup.get_job_stored laws reads_up i w (ap (row w.tables) here ∙ stored)),
      )

  -- While the database and the queue are up, and whatever the cache answers: let a job of a known
  -- type have a row, be PENDING and due at the clock's reading, no row have the nil identifier, the
  -- cache have no string, and the generator of identifiers never give the nil identifier nor that of
  -- the job. After one poll, and then one loop of a worker that makes at least as many rounds as the
  -- queue has messages to be fetched after the poll, whatever else is in the queue, the job's row is
  -- COMPLETED, and a GET of its identifier is answered with 200 and that row.
  pub due_job_done :
      (k : Job) (n : ℕ) (w : World)
      → ((m : ℕ) → (w.fresh_ids m ≢ uuid_nil) × (w.fresh_ids m ≢ k.id))
      → ((key : Str) → laws.cache.value w.store key ≡ none)
      → row w.tables uuid_nil ≡ none
      → row w.tables k.id ≡ some k
      → ((name : Str) → k.type ≢ other name)
      → matches (due laws (w.clock 0)) k ≡ true
      → length (waiting (schedule_jobs w).1.broker) ≤ n
      → (i : Job) × (row (consume_loop c.cache n (schedule_jobs w).1).1.tables k.id ≡ some i)
        × (i.status ≡ completed)
        × (let (r, u) =
              get_job_handler (S.uuid_text k.id) (consume_loop c.cache n (schedule_jobs w).1).1 in
            (r.code ≡ 200) × (r.body ≡ job_body (job_response_from i)))
  due_job_done k n w new no_keys no_nil stored known ready enough =
      let named : k.id ≢ uuid_nil = λ e. cc in
      let inv = asked_invariant k.id k.client_id k.type k.payload in
      let ((i, runs, _), sent) =
        poll_publishes laws writes_up finds_up queue_up k w named stored ready in
      shown k (consume_loop c.cache n (schedule_jobs w).1).1 (
        drained laws queue reads_up writes_up c k.id k.client_id k.type k.payload known n _
          (S.uuid_text k.id) (schedule_jobs w).1 refl enough (laws.codec.parse_uuid-uuid_text k.id)
          (Polls.schedule_jobs-Everywhere laws inv w
            (Stores.Everywhere-uncached laws inv (rows_asked laws k w no_nil stored) no_keys new))
          (i, runs) (message_waits k w sent))
