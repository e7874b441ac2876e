-- ===== src/JobScheduler/Poll.antt =====
-- What one poll of the scheduler publishes and what it does to the rows.
use parallelis_distributed_e.Base.{
  ◌≡◌, ◌≢◌, refl, sym, ap, ◌∙◌, subst, inl, inr, true, some, none, Option, List, [], ◌∷◌, map, Memᴰ,
  Str, Result, ok, err, ◌==◌, ==→eq, Bool-cases,
}
use parallelis_distributed_e.Model.{Time, uuid_nil, pending, Job}
use parallelis_distributed_e.Services.{
  Condition, both, status_is, scheduled_at_le, matches, Stored, Message, Services, World,
  ServiceLaws, now,
}
use parallelis_distributed_e.Repository.{save, find_by_status_and_scheduled_at_before}
use parallelis_distributed_e.Lifecycle.Hooked.{id-Stored}
use parallelis_distributed_e.JobScheduler.{
  running_job, job_message, mark_published, schedule_job, schedule_all, schedule_found,
  schedule_jobs,
}

module _ ⦃S : Services⦄ where
  -- Writing messages one after the other, whatever each write returns.
  unfoldable pub publish_all : List Message → S.queue.Broker → S.queue.Broker
  publish_all [] b = b
  publish_all (m ∷ ms) b = publish_all ms (S.queue.write_message m b).1

  broker-mark_published :
      (j : Job) (o : Option Str) (w : World) → (mark_published j o w).1.broker ≡ w.broker
  unfolding mark_published save
  broker-mark_published j (some e) w = refl
  broker-mark_published j none w = refl

  -- Scheduling a list of jobs attempts to write the message of each, once and in the order of the
  -- list, whatever fails, and makes no other call of the queue.
  pub broker-schedule_all :
      (js : List Job) (w : World)
      → (schedule_all js w).1.broker ≡ publish_all (map job_message js) w.broker
  unfolding schedule_all schedule_job publish_all
  broker-schedule_all [] w = refl
  broker-schedule_all (j ∷ js) w =
      broker-schedule_all js _ ∙ ap (publish_all (map job_message js)) (broker-mark_published j _ _)

-- A row is as `j`; or `j` meets the condition, and the row is as a save of the running copy of `j`
-- leaves it.
pub data Scheduled (c : Condition) (j : Job) : Option Job → Type 0 where
  kept : {o : Option Job} → o ≡ some j → Scheduled c j o
  marked :
      {o : Option Job} (at : Time) (k : Job)
      → matches c j ≡ true
      → Stored (running_job at j) k
      → o ≡ some k
      → Scheduled c j o

module _ ⦃S : Services⦄ (laws : ServiceLaws S) where
  open laws use {database.{row}}

  -- One save of the running copy of `i`, seen at the row of `j`.
  row-mark :
      (c : Condition) (i j : Job) (failure : Option Str) (w : World)
      → i.id ≢ uuid_nil
      → (i.id ≡ j.id → (i ≡ j) × (matches c j ≡ true))
      → Scheduled c j (row w.tables j.id)
      → Scheduled c j (row (mark_published i failure w).1.tables j.id)
  unfolding mark_published save running_job
  row-mark c i j (some e) w named same h = h
  row-mark c i j none w named same h = saved (S.database.save copy w.tables).0.0 refl
    where
      copy : Job
      copy = running_job (now w).0 i

      stored : Job
      stored = (S.database.save copy w.tables).0.1

      kept_copy : Stored copy stored
      kept_copy = laws.database.save_stored copy w.tables

      saved :
          (o : Option Str)
          → (S.database.save copy w.tables).0.0 ≡ o
          → Scheduled c j (row (S.database.save copy w.tables).1 j.id)
      saved (some e) fails =
          subst (Scheduled c j) (sym (laws.database.row-save_err copy w.tables j.id e fails)) h
      saved none done = elim (Bool-cases (stored.id == j.id)) [
        | inl here' ↦
            let (i_is_j, due) = same (sym (id-Stored kept_copy named) ∙ ==→eq _ _ here') in
            marked (now w).0 stored due
              (subst (λ x. Stored (running_job (now w).0 x) stored) i_is_j kept_copy)
              (laws.database.row-save_ok copy w.tables j.id done ∙ rw here' refl)
        | inr elsewhere ↦
            subst (Scheduled c j)
              (sym (laws.database.row-save_ok copy w.tables j.id done ∙ rw elsewhere refl)) h
      ]

  row-schedule_all :
      (c : Condition) (js : List Job) (j : Job) (w : World)
      → ((i : Job) → Memᴰ i js → (i.id ≢ uuid_nil) × (i.id ≡ j.id → (i ≡ j) × (matches c j ≡ true)))
      → Scheduled c j (row w.tables j.id)
      → Scheduled c j (row (schedule_all js w).1.tables j.id)
  unfolding schedule_all schedule_job
  row-schedule_all c [] j w h start = start
  row-schedule_all c (i ∷ js) j w h start =
      let (named, same) = h i (Memᴰ.head refl) in
      row-schedule_all c js j _ (λ k m. h k (Memᴰ.tail m)) (row-mark c i j _ _ named same start)

  same_row : (o : Option Job) (i j : Job) → o ≡ some i → o ≡ some j → i ≡ j
  same_row o i j p q = cc

  row-schedule_found :
      (c : Condition) (r : Result (List Job)) (j : Job) (w : World)
      → ((js : List Job) (i : Job)
          → r ≡ ok js
          → Memᴰ i js
          → (i.id ≢ uuid_nil) × (i.id ≡ j.id → (i ≡ j) × (matches c j ≡ true)))
      → Scheduled c j (row w.tables j.id)
      → Scheduled c j (row (schedule_found r w).1.tables j.id)
  unfolding schedule_found
  row-schedule_found c (err e) j w h start = start
  row-schedule_found c (ok js) j w h start = row-schedule_all c js j w (λ i m. h js i refl m) start

  -- What the query of a poll selects: the PENDING jobs whose time has come.
  abbrev pub due : Time → Condition
  due t = both (status_is pending) (scheduled_at_le t)

  found_due :
      (t : Time) (js : List Job) (i j : Job) (w : World)
      → row w.tables uuid_nil ≡ none
      → row w.tables j.id ≡ some j
      → (find_by_status_and_scheduled_at_before pending t w).0 ≡ ok js
      → Memᴰ i js
      → (i.id ≢ uuid_nil) × (i.id ≡ j.id → (i ≡ j) × (matches (due t) j ≡ true))
  unfolding find_by_status_and_scheduled_at_before
  found_due t js i j w no_nil present found m =
      let (stored, fits) = laws.database.find_sound _ w.tables js i found m in
      (
        λ nil. cc (ap (row w.tables) nil, no_nil, stored),
        λ same.
            let i_is_j : i ≡ j =
              same_row (row w.tables j.id) i j (ap (row w.tables) (sym same) ∙ stored) present in
            (i_is_j, subst (λ x. matches (due t) x ≡ true) i_is_j fits),
      )

  -- Let no row have the nil identifier, and let `j` be a row. After a poll the row is as it was; or
  -- `j` was PENDING with its time come at the poll's reading of the clock, and the row is `j` with
  -- the status RUNNING and an update time, as a save leaves it. So a poll leaves RUNNING, COMPLETED
  -- and DEAD_LETTER jobs and jobs that are not due alone, whatever the queue and the database
  -- answer.
  pub row-schedule_jobs :
      (j : Job) (w : World)
      → row w.tables uuid_nil ≡ none
      → row w.tables j.id ≡ some j
      → Scheduled (due (w.clock 0)) j (row (schedule_jobs w).1.tables j.id)
  unfolding schedule_jobs find_by_status_and_scheduled_at_before
  row-schedule_jobs j w no_nil present =
      row-schedule_found (due (w.clock 0)) _ j _
        (λ js i e m. found_due (w.clock 0) js i j (now w).1 no_nil present e m)
        (kept (laws.database.row-find _ w.tables j.id ∙ present))
