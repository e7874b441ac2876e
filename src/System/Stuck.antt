-- ===== src/System/Stuck.antt =====
-- JobScheduler.go's scheduleJob publishes a job before it marks it: what becomes of a job that a
-- worker runs in between.
use parallelis_distributed_e.Base.{
  ℕ, ◌≡◌, ◌≢◌, refl, sym, ap, ◌∙◌, subst, none, some, Option, List, [], ◌∷◌, Memᴰ, Str, err, ok,
  true,
}
use parallelis_distributed_e.Model.{
  Uuid, uuid_nil, JobType, other, pending, running, completed, Job,
}
use parallelis_distributed_e.Services.{Condition, matches, Message, Services, World, ServiceLaws}
use parallelis_distributed_e.Repository.{save}
use parallelis_distributed_e.JobScheduler.{job_message, mark_published}
use parallelis_distributed_e.JobScheduler.Race.{mark_published_overwrites}
use parallelis_distributed_e.JobWorker.{process_job}
use parallelis_distributed_e.Lifecycle.Stores
use parallelis_distributed_e.Lifecycle.Operations
use parallelis_distributed_e.Lifecycle.Polls
use parallelis_distributed_e.System.{Config, Action, deliver, perform, perform_all}
use parallelis_distributed_e.System.Threads.{
  Thread, begun, queued, sent, ended, after_write, advance, drive,
}
use parallelis_distributed_e.System.Atomic.{threads_end}
use parallelis_distributed_e.System.Soundness.{perform-Everywhere}
use parallelis_distributed_e.System.Identity.{AsAskedIf, asked_invariant, rows_asked}
use parallelis_distributed_e.System.Changes.{Changed, same, scheduled, handled}
use parallelis_distributed_e.System.Completed.{row-perform, performed}

module _ ⦃S : Services⦄ (laws : ServiceLaws S)
    (reads_up : (c : Condition) (t : S.database.Tables) (e : Str) (j : Job)
      → (S.database.first c t).0 ≡ err e
      → matches c j ≡ true
      → laws.database.row t j.id ≢ some j)
    (writes_up : (j : Job) (t : S.database.Tables) → (S.database.save j t).0.0 ≡ none) (c : Config)
    (id : Uuid) (client_id : Str) (type : JobType) (payload : Str) where
  open laws use {database.{row}}

  abbrev Everywhere : World → Type 0
  Everywhere = Stores.Everywhere laws (asked_invariant id client_id type payload)

  running-Changed :
      (a : Action) (i : Job) (o : Option Job)
      → i.status ≡ running
      → ((m : Message) → a ≡ deliver m → S.parse_uuid m.value ≢ ok id)
      → Changed id i a o
      → o ≡ some i
  running-Changed a i o runs foreign (same e) = e
  running-Changed a i o runs foreign (scheduled at j waits how e) = cc
  running-Changed a i o runs foreign (handled msg own parsed) = absurd (foreign msg own parsed)

  -- A RUNNING row stays as long as no message of its job is delivered.
  pub row-perform_all :
      (actions : List Action) (i : Job) (w : World)
      → i.status ≡ running
      → ((m : Message) → Memᴰ (deliver m) actions → S.parse_uuid m.value ≢ ok id)
      → Everywhere w
      → row w.tables id ≡ some i
      → row (perform_all c actions w).tables id ≡ some i
  unfolding perform_all
  row-perform_all [] i w runs foreign good stored = stored
  row-perform_all (a ∷ rest) i w runs foreign good stored =
      row-perform_all rest i (perform c a w) runs (λ m at. foreign m (Memᴰ.tail at))
        (perform-Everywhere laws c (asked_invariant id client_id type payload) a w good)
        (running-Changed a i _ runs (λ m e. foreign m (Memᴰ.head (sym e)))
          (row-perform laws reads_up writes_up c id client_id type payload a i w good stored))

  -- The scheduler marks its copy of the job.
  marked_for_good :
      (k : Job) (actions : List Action) (v : World)
      → k.id ≡ id
      → k.id ≢ uuid_nil
      → k.status ≡ pending
      → AsAskedIf id client_id type payload k
      → ((m : Message) → Memᴰ (deliver m) actions → S.parse_uuid m.value ≢ ok id)
      → Everywhere v
      → (i : Job) × (row (perform_all c actions (mark_published k none v).1).tables id ≡ some i)
        × (i.status ≡ running)
        × (i.completed_at ≡ k.completed_at)
  unfolding save
  marked_for_good k actions v own named waits asked foreign good =
      let (i, stored, runs, _, at) = mark_published_overwrites laws k v named (writes_up _ _) in
      (
        i,
        row-perform_all actions i _ runs foreign
            (Polls.mark_published-Everywhere laws (asked_invariant id client_id type payload) k none
              v asked waits good)
            (ap (row (mark_published k none v).1.tables) (sym own) ∙ stored),
        runs,
        at,
      )

module _ ⦃S : Services⦄ (laws : ServiceLaws S)
    (reads_up : (c : Condition) (t : S.database.Tables) (e : Str) (j : Job)
      → (S.database.first c t).0 ≡ err e
      → matches c j ≡ true
      → laws.database.row t j.id ≢ some j)
    (writes_up : (j : Job) (t : S.database.Tables) → (S.database.save j t).0.0 ≡ none)
    (c : Config) where
  open laws use {database.{row}}

  after_written :
      (k : Job) (js : List Job) (o : Option Str) → o ≡ none → after_write k js o ≡ sent k js
  unfolding after_write
  after_written k js none e = refl
  after_written k js (some m) e = cc

  -- The poll's goroutine has published the job, and a worker's has then come so far.
  abbrev pub Overwritten : Job → List Job → List Action → Thread → Thread × World → Type 0
  Overwritten k js actions poller worker =
      let marker = advance c.cache poller worker.1 in
      (worker.0 ≡ ended)
      × ((i : Job) × (row worker.1.tables k.id ≡ some i) × (i.status ≡ completed))
      × (marker.0 ≡ queued js)
      × ((i : Job) × (row (perform_all c actions marker.1).tables k.id ≡ some i)
          × (i.status ≡ running)
          × (i.completed_at ≡ k.completed_at))

  handled-Overwritten :
      (k : Job) (js : List Job) (msg : Message) (actions : List Action) (u : World)
      → Stores.Everywhere laws (asked_invariant k.id k.client_id k.type k.payload) u
      → k.id ≢ uuid_nil
      → row u.tables k.id ≡ some k
      → k.status ≡ pending
      → ((name : Str) → k.type ≢ other name)
      → S.parse_uuid msg.value ≡ ok k.id
      → ((m : Message) → Memᴰ (deliver m) actions → S.parse_uuid m.value ≢ ok k.id)
      → Overwritten k js actions (sent k js) (ended, (process_job c.cache msg u).1)
  unfolding advance perform mark_published
  handled-Overwritten k js msg actions u good named stored waits known parsed foreign =
      let inv = asked_invariant k.id k.client_id k.type k.payload in
      (
        refl,
        performed laws reads_up writes_up c k.id k.client_id k.type k.payload msg k u known good
            stored parsed,
        refl,
        marked_for_good laws reads_up writes_up c k.id k.client_id k.type k.payload k actions
            (process_job c.cache msg u).1 refl named waits (named, λ e. (refl, refl, refl)) foreign
            (perform-Everywhere laws c inv (deliver msg) u good),
      )

  -- Let a poll have found a job of a known type that is PENDING in its row, and let the queue accept
  -- its message and the database be up; let no row have the nil identifier, the cache have no string,
  -- and the generator of identifiers never give the nil identifier nor that of the job. If a
  -- goroutine of a worker handles the message between the publication and the mark, it comes to its
  -- end and leaves the row COMPLETED; and the mark then leaves it RUNNING with the completion time
  -- that the poll had read, which no requests, lookups, polls, clearings and deliveries of the
  -- messages of other jobs, in any order, ever change.
  pub completion_lost :
      (k : Job) (js : List Job) (msg : Message) (actions : List Action) (w : World)
      → ((n : ℕ) → (w.fresh_ids n ≢ uuid_nil) × (w.fresh_ids n ≢ k.id))
      → ((key : Str) → laws.cache.value w.store key ≡ none)
      → row w.tables uuid_nil ≡ none
      → row w.tables k.id ≡ some k
      → k.status ≡ pending
      → ((name : Str) → k.type ≢ other name)
      → (S.queue.write_message (job_message k) w.broker).0 ≡ none
      → S.parse_uuid msg.value ≡ ok k.id
      → ((m : Message) → Memᴰ (deliver m) actions → S.parse_uuid m.value ≢ ok k.id)
      → (n : ℕ) × (let poller = advance c.cache (queued (k ∷ js)) w in
          Overwritten k js actions poller.0 (drive c.cache n (begun msg) poller.1))
  unfolding advance
  completion_lost k js msg actions w new no_keys no_nil stored waits known written parsed foreign =
      let named : k.id ≢ uuid_nil = λ e. cc in
      let inv = asked_invariant k.id k.client_id k.type k.payload in
      let u : World = record w { broker = (S.queue.write_message (job_message k) w.broker).1 } in
      let good =
        Operations.broker-Everywhere laws inv u.broker w
          (Stores.Everywhere-uncached laws inv (rows_asked laws k w no_nil stored) no_keys new) in
      let (n, e) = (threads_end c.cache msg u).0 in
      (
        n,
        subst (λ t. Overwritten k js actions t (drive c.cache n (begun msg) u))
            (sym (after_written k js _ written))
            (subst (Overwritten k js actions (sent k js)) (sym e) (
              handled-Overwritten k js msg actions u good named stored waits known parsed foreign)),
      )
