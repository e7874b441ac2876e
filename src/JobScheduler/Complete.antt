-- ===== src/JobScheduler/Complete.antt =====
-- What a poll publishes while the queue and the database are up.
use parallelis_distributed_e.Base.{
  ◌≡◌, ◌≢◌, refl, sym, ap, ◌∙◌, inl, inr, true, some, none, Option, Result, ok, err, List, [], ◌∷◌,
  map, Memᴰ, Str, ◌==◌, ==-refl, Bool-cases, subst, arith,
}
use parallelis_distributed_e.Model.{Uuid, uuid_nil, running, Job}
use parallelis_distributed_e.Services.{Query, matches, Message, Services, World, ServiceLaws}
use parallelis_distributed_e.Repository.{save, find_by_status_and_scheduled_at_before}
use parallelis_distributed_e.Lifecycle.Hooked.{id-Stored, status-Stored}
use parallelis_distributed_e.JobScheduler.{
  running_job, job_message, mark_published, schedule_job, schedule_all, schedule_found,
  schedule_jobs,
}
use parallelis_distributed_e.JobScheduler.Poll.{due, publish_all, broker-schedule_all}

abbrev IsRunning : Option Job → Type 0
IsRunning o = (k : Job) × (o ≡ some k) × (k.status ≡ running)

mem-map_message :
    ⦃S : Services⦄ (j : Job) (js : List Job) → Memᴰ j js → Memᴰ (job_message j) (map job_message js)
mem-map_message j [] m = elim m [ ]
mem-map_message j (k ∷ js) (Memᴰ.head e) = Memᴰ.head (ap job_message e)
mem-map_message j (k ∷ js) (Memᴰ.tail m) = Memᴰ.tail (mem-map_message j js m)

module _ ⦃S : Services⦄ (laws : ServiceLaws S)
    (writes_up : (j : Job) (t : S.database.Tables) → (S.database.save j t).0.0 ≡ none)
    (finds_up : (q : Query) (t : S.database.Tables)
      → (js : List Job) × ((S.database.find q t).0 ≡ ok js))
    (queue_up : (m : Message) (b : S.queue.Broker) → (S.queue.write_message m b).0 ≡ none) where
  open laws use {database.{row}}

  -- Marking another job leaves a RUNNING row RUNNING, be it the same job or not.
  IsRunning-mark :
      (i : Job) (o : Option Str) (id : Uuid) (w : World)
      → IsRunning (row w.tables id)
      → IsRunning (row (mark_published i o w).1.tables id)
  unfolding mark_published save running_job
  IsRunning-mark i (some e) id w h = h
  IsRunning-mark i none id w h =
      let copy = running_job (w.clock 0) i in
      let saved = (S.database.save copy w.tables).0.1 in
      let after = laws.database.row-save_ok copy w.tables id (writes_up copy w.tables) in
      elim (Bool-cases (saved.id == id)) [
        | inl here ↦ (
          saved,
          after ∙ rw here refl,
          (status-Stored (laws.database.save_stored copy w.tables)).0,
        )
        | inr apart ↦ let (k, e, s) = h in (k, after ∙ rw apart e, s)
      ]

  IsRunning-schedule_all :
      (js : List Job) (id : Uuid) (w : World)
      → IsRunning (row w.tables id)
      → IsRunning (row (schedule_all js w).1.tables id)
  unfolding schedule_all schedule_job
  IsRunning-schedule_all [] id w h = h
  IsRunning-schedule_all (i ∷ js) id w h =
      IsRunning-schedule_all js id _ (IsRunning-mark i _ id _ h)

  marked_now :
      (j : Job) (o : Option Str) (w : World)
      → j.id ≢ uuid_nil
      → o ≡ none
      → IsRunning (row (mark_published j o w).1.tables j.id)
  unfolding mark_published save running_job
  marked_now j (some e) w named sent = cc
  marked_now j none w named sent =
      let copy = running_job (w.clock 0) j in
      let how = laws.database.save_stored copy w.tables in
      let here : ((S.database.save copy w.tables).0.1.id == j.id) ≡ true =
        rw (id-Stored how named) (==-refl j.id) in
      (
        (S.database.save copy w.tables).0.1,
        laws.database.row-save_ok copy w.tables j.id (writes_up copy w.tables) ∙ rw here refl,
        (status-Stored how).0,
      )

  scheduled-IsRunning :
      (js : List Job) (j : Job) (w : World)
      → Memᴰ j js
      → j.id ≢ uuid_nil
      → IsRunning (row (schedule_all js w).1.tables j.id)
  unfolding schedule_all schedule_job
  scheduled-IsRunning [] j w m named = elim m [ ]
  scheduled-IsRunning (i ∷ js) j w (Memᴰ.head e) named = IsRunning-schedule_all js j.id _ (
      subst
        (λ x. IsRunning (
          row
            (mark_published x (S.queue.write_message (job_message x) w.broker).0
              (record w { broker = (S.queue.write_message (job_message x) w.broker).1 })).1.tables
            j.id))
        e (marked_now j _ _ named (queue_up (job_message j) w.broker)))
  scheduled-IsRunning (i ∷ js) j w (Memᴰ.tail m) named = scheduled-IsRunning js j _ m named

  published :
      (r : Result (List Job)) (js : List Job) (j : Job) (w : World)
      → r ≡ ok js
      → Memᴰ j js
      → j.id ≢ uuid_nil
      → IsRunning (row (schedule_found r w).1.tables j.id)
        × ((schedule_found r w).1.broker ≡ publish_all (map job_message js) w.broker)
  unfolding schedule_found
  published (err e) js j w found m named = cc
  published (ok ks) js j w found m named =
      let same : ks ≡ js = ground arith in
      (
        scheduled-IsRunning ks j w (subst (Memᴰ j) (sym same) m) named,
        broker-schedule_all ks w ∙ ap (λ l. publish_all (map job_message l) w.broker) same,
      )

  -- While the queue and the database are up: if a job has an identifier, is PENDING and its time has
  -- come at the poll's reading of the clock, then after the poll its row is RUNNING, and its message
  -- is one of those that the poll has written.
  pub poll_publishes :
      (j : Job) (w : World)
      → j.id ≢ uuid_nil
      → row w.tables j.id ≡ some j
      → matches (due laws (w.clock 0)) j ≡ true
      → ((k : Job) × (row (schedule_jobs w).1.tables j.id ≡ some k) × (k.status ≡ running))
        × ((ms : List Message) × Memᴰ (job_message j) ms
            × ((schedule_jobs w).1.broker ≡ publish_all ms w.broker))
  unfolding schedule_jobs find_by_status_and_scheduled_at_before
  poll_publishes j w named stored waiting =
      let (js, found) = finds_up _ w.tables in
      let m = laws.database.find_complete _ w.tables js j found stored waiting in
      let (run, sent) = published _ js j _ found m named in
      (run, (map job_message js, mem-map_message j js m, sent))
