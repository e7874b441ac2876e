-- ===== src/System/Delivery.antt =====
-- A job from its publication to its completion, while every library that it needs is up.
use parallelis_distributed_e.Base.{
  ◌≡◌, ◌≢◌, refl, sym, ap, ◌∙◌, true, Option, some, none, Str, ok, err,
}
use parallelis_distributed_e.Model.{Time, uuid_nil, other, Job, running, completed}
use parallelis_distributed_e.Services.{
  Condition, matches, Message, Services, World, ServiceLaws, now,
}
use parallelis_distributed_e.Repository.{save}
use parallelis_distributed_e.CacheService.{CacheService, get_job}
use parallelis_distributed_e.JobScheduler.{running_job, job_message, mark_published, schedule_job}
use parallelis_distributed_e.JobWorker.{process_job}
use parallelis_distributed_e.JobWorker.Acknowledge.{broker-process_job}
use parallelis_distributed_e.JobWorker.Fetch.{row-save}
use parallelis_distributed_e.JobWorker.Completion.{Agrees, process_parsed-Done}
use parallelis_distributed_e.Lifecycle.Hooked.{id-Stored, status-Stored, type-Stored}

module _ ⦃S : Services⦄ (laws : ServiceLaws S)
    (reads_up : (c : Condition) (t : S.database.Tables) (e : Str) (j : Job)
      → (S.database.first c t).0 ≡ err e
      → matches c j ≡ true
      → laws.database.row t j.id ≢ some j)
    (writes_up : (j : Job) (t : S.database.Tables) → (S.database.save j t).0.0 ≡ none) where
  open laws use {database.{row}}

  -- The world after a publication that succeeded: the row is RUNNING, and nothing but the tables
  -- and the clock changed.
  abbrev pub Marked : Job → World → World → Type 0
  Marked j w u =
      (k : Job) × (row u.tables j.id ≡ some k)
      × (k.id ≡ j.id)
      × (k.type ≡ j.type)
      × (k.status ≡ running)
      × (k.attempts ≡ j.attempts)
      × (u.store ≡ w.store)
      × (u.broker ≡ w.broker)

  mark_published-Marked :
      (j : Job) (w : World) (o : Option Str)
      → o ≡ none
      → j.id ≢ uuid_nil
      → Marked j w (mark_published j o w).1
  unfolding mark_published running_job save
  mark_published-Marked j w (some e) none_failed named = cc
  mark_published-Marked j w none none_failed named =
      let copy = running_job (w.clock 0) j in
      let how = laws.database.save_stored copy w.tables in
      let (a, b, c) = status-Stored how in
      (
        (save copy (now w).1).0.1,
        row-save laws writes_up copy (now w).1 named,
        id-Stored how named,
        type-Stored how,
        a,
        b,
        refl,
        refl,
      )

  Agrees-store :
      (j k : Job) (w u : World)
      → k.id ≡ j.id
      → k.type ≡ j.type
      → u.store ≡ w.store
      → Agrees laws reads_up writes_up j w
      → Agrees laws reads_up writes_up k u
  unfolding get_job
  Agrees-store j k w u same typed kept agrees c found =
      let (a, b) = agrees c (rw (sym kept, sym same) found) in (a ∙ sym same, b ∙ sym typed)

  -- While the database is up: if the queue takes the message of a job that has an identifier and a
  -- known type, and the cache has that job or nothing under its key, then the scheduler leaves the
  -- job's row RUNNING, and a worker that then handles the message leaves it COMPLETED with a
  -- completion time; the queue has been given one message and then one commit.
  scheduled_and_delivered :
      (cs : CacheService) (j : Job) (msg : Message) (w : World)
      → j.id ≢ uuid_nil
      → ((name : Str) → j.type ≢ other name)
      → Agrees laws reads_up writes_up j w
      → msg.value ≡ (job_message j).value
      → (S.queue.write_message (job_message j) w.broker).0 ≡ none
      → let u = (schedule_job j w).1 in
        let v = (process_job cs msg u).1 in
        ((i : Job) × (row u.tables j.id ≡ some i) × (i.status ≡ running))
        × ((k : Job) × (at : Time) × (row v.tables j.id ≡ some k)
            × (k.status ≡ completed)
            × (k.completed_at ≡ some at))
        × (v.broker
            ≡ (S.queue.commit_message msg (S.queue.write_message (job_message j) w.broker).1).1)
  unfolding process_job schedule_job job_message
  scheduled_and_delivered cs j msg w named known agrees sent taken =
      let published : World = record w {
        broker = (S.queue.write_message (job_message j) w.broker).1;
      } in
      let u = (schedule_job j w).1 in
      let (i, stored, same, typed, status, _, store, broker) =
        mark_published-Marked j published (S.queue.write_message (job_message j) w.broker).0 taken
          named in
      let parsed : S.parse_uuid msg.value ≡ ok i.id =
        ap S.parse_uuid sent ∙ laws.codec.parse_uuid-uuid_text j.id ∙ ap ok (sym same) in
      let (c, c_same, finished) =
        process_parsed-Done laws reads_up writes_up cs msg i u (S.parse_uuid msg.value) parsed
          (ap (row u.tables) same ∙ stored) (Agrees-store j i w u same typed store agrees)
          (λ name e. known name (sym typed ∙ e)) (λ e. named (sym same ∙ e)) in
      let (k, done, a, b, _) = finished in
      (
        (i, stored, status),
        (k, u.clock 0, ap (row (process_job cs msg u).1.tables) (sym (c_same ∙ same)) ∙ done, a, b),
        broker-process_job cs msg u ∙ ap (λ q. (S.queue.commit_message msg q).1) broker,
      )
