-- ===== src/Lifecycle/Polls.antt =====
-- A poll of the scheduler keeps such a property of what the database and the cache hold.
use parallelis_distributed_e.Base.{
  ◌≡◌, refl, true, Option, some, none, List, ◌∷◌, [], Memᴰ, Str, Result, ok, err, arith,
}
use parallelis_distributed_e.Model.{pending, Time, Uuid, Job}
use parallelis_distributed_e.Services.{
  matches, both, status_is, scheduled_at_le, Services, World, ServiceLaws, now,
}
use parallelis_distributed_e.Repository.{find_by_status_and_scheduled_at_before}
use parallelis_distributed_e.JobScheduler.{
  mark_published, schedule_job, schedule_all, schedule_found, schedule_jobs,
}
use parallelis_distributed_e.Lifecycle.{Invariant}
use parallelis_distributed_e.Lifecycle.Stores
use parallelis_distributed_e.Lifecycle.Operations

pub pending_of_due :
    (t : Time) (j : Job)
    → matches (both (status_is pending) (scheduled_at_le t)) j ≡ true
    → j.status ≡ pending
pending_of_due t j h = ground arith

module _ ⦃S : Services⦄ (laws : ServiceLaws S) {P : Job → Type 0} {Fresh : Uuid → Type 0}
    (inv : Invariant P Fresh) where
  abbrev Everywhere : World → Type 0
  Everywhere = Stores.Everywhere laws inv

  pub mark_published-Everywhere :
      (j : Job) (failure : Option Str) (w : World)
      → P j
      → j.status ≡ pending
      → Everywhere w
      → Everywhere (mark_published j failure w).1
  unfolding mark_published
  mark_published-Everywhere j (some e) w h p good = good
  mark_published-Everywhere j none w h p good =
      (Stores.save-Everywhere laws inv _ _ (inv.of_running _ j h p)
        (Operations.now-Everywhere laws inv w good)).0

  schedule_all-Everywhere :
      (js : List Job) (w : World)
      → ((j : Job) → Memᴰ j js → P j × (j.status ≡ pending))
      → Everywhere w
      → Everywhere (schedule_all js w).1
  unfolding schedule_all schedule_job
  schedule_all-Everywhere [] w h good = good
  schedule_all-Everywhere (j ∷ js) w h good =
      let (sound, waiting) = h j (Memᴰ.head refl) in
      schedule_all-Everywhere js _ (λ k m. h k (Memᴰ.tail m))
        (mark_published-Everywhere j _ _ sound waiting
          (Operations.broker-Everywhere laws inv _ w good))

  schedule_found-Everywhere :
      (r : Result (List Job)) (w : World)
      → ((js : List Job) (j : Job) → r ≡ ok js → Memᴰ j js → P j × (j.status ≡ pending))
      → Everywhere w
      → Everywhere (schedule_found r w).1
  unfolding schedule_found
  schedule_found-Everywhere (err e) w h good = good
  schedule_found-Everywhere (ok js) w h good =
      schedule_all-Everywhere js w (λ j m. h js j refl m) good

  -- One poll of the scheduler.
  pub schedule_jobs-Everywhere : (w : World) → Everywhere w → Everywhere (schedule_jobs w).1
  unfolding schedule_jobs find_by_status_and_scheduled_at_before
  schedule_jobs-Everywhere w good =
      let ready = Operations.now-Everywhere laws inv w good in
      schedule_found-Everywhere _ _
        (λ js j e m.
          let (sound, due) = Stores.find_sound laws inv _ js j (now w).1 ready e m in
          (sound, pending_of_due _ j due))
        (Stores.find-Everywhere laws inv _ _ ready)
