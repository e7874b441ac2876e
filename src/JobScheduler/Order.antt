-- ===== src/JobScheduler/Order.antt =====
-- JobRepository.go's FindByStatusAndScheduledAtBefore with its `Order`, as a poll uses it: which
-- messages a poll writes, and in which order.
use parallelis_distributed_e.Base.{
  ◌≡◌, ◌≤◌, ◌⊎◌, inl, inr, refl, ap, ◌∙◌, true, some, List, [], ◌∷◌, map, Memᴰ, Str, Result, ok,
  err,
}
use parallelis_distributed_e.Model.{Time, pending, Job}
use parallelis_distributed_e.Services.{
  Query, scheduled_at_asc, matches, Services, World, ServiceLaws, now,
}
use parallelis_distributed_e.Repository.{find_by_status_and_scheduled_at_before}
use parallelis_distributed_e.JobScheduler.{job_message, schedule_found, schedule_jobs}
use parallelis_distributed_e.JobScheduler.Poll.{due, publish_all, broker-schedule_all}

-- No job's time is after that of a later job of the list.
abbrev pub InOrder : List Job → Type 0
InOrder [] = Unit
InOrder (j ∷ js) =
    ((k : Job) (s t : Time) → Memᴰ k js → j.scheduled_at ≡ some s → k.scheduled_at ≡ some t → s ≤ t)
    × InOrder js

module _ ⦃S : Services⦄ (laws : ServiceLaws S)
    (in_order : (q : Query) (t : S.database.Tables) (js : List Job)
      → q.order ≡ scheduled_at_asc
      → (S.database.find q t).0 ≡ ok js
      → InOrder js) where
  open laws use {database.{row}}

  -- The row of a job that is PENDING, and whose time has come at the poll's reading of the clock.
  abbrev pub IsDue : World → Job → Type 0
  IsDue w j = (row w.tables j.id ≡ some j) × (matches (due laws (w.clock 0)) j ≡ true)

  -- The queue has been given the messages of these jobs, which are those that are due, in order.
  abbrev pub Published : World → List Job → S.queue.Broker → Type 0
  Published w js b =
      (b ≡ publish_all (map job_message js) w.broker)
      × InOrder js
      × ((j : Job) → (Memᴰ j js → IsDue w j) × (IsDue w j → Memᴰ j js))

  -- The first call of a poll
  abbrev pub asked : World → Result (List Job)
  asked w = (find_by_status_and_scheduled_at_before pending (w.clock 0) (now w).1).0

  found-Published :
      (r : Result (List Job)) (w v : World)
      → asked w ≡ r
      → v.broker ≡ w.broker
      → ((e : Str) × (asked w ≡ err e) × ((schedule_found r v).1.broker ≡ w.broker))
        ⊎ ((js : List Job) × (asked w ≡ ok js) × Published w js (schedule_found r v).1.broker)
  unfolding schedule_found find_by_status_and_scheduled_at_before
  found-Published (err e) w v answer same = inl (e, answer, same)
  found-Published (ok js) w v answer same = inr (
    js,
    answer,
    (
      broker-schedule_all js v ∙ ap (publish_all (map job_message js)) same,
      in_order _ w.tables js refl answer,
      λ j. (
        λ m. laws.database.find_sound _ w.tables js j answer m,
        λ due_row. laws.database.find_complete _ w.tables js j answer due_row.0 due_row.1,
      ),
    ),
  )

  -- If the database answers an ordered query in order, then a poll either finds that the query
  -- failed and makes no call of the queue; or it writes the messages of the jobs that were found, in
  -- the order of their times, whatever the queue and the saves in between answer, and makes no other
  -- call of the queue; and the jobs found are all those, and only those, whose row is PENDING with
  -- a time that has come at the poll's reading of the clock.
  pub messages_in_order :
      (w : World)
      → ((e : Str) × (asked w ≡ err e) × ((schedule_jobs w).1.broker ≡ w.broker))
        ⊎ ((js : List Job) × (asked w ≡ ok js) × Published w js (schedule_jobs w).1.broker)
  unfolding schedule_jobs find_by_status_and_scheduled_at_before
  messages_in_order w = found-Published _ w _ refl refl
