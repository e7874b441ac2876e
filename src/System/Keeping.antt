-- ===== src/System/Keeping.antt =====
-- One library call of a goroutine keeps a property of what the stores and the goroutine hold.
use parallelis_distributed_e.Base.{
  ◌≡◌, refl, Option, none, some, List, [], ◌∷◌, Memᴰ, Str, Result, ok, err,
}
use parallelis_distributed_e.Model.{
  Uuid, JobType, payment_process, email_confirmation, other, pending, Job,
}
use parallelis_distributed_e.Services.{id_is, Message, Services, World, ServiceLaws, now}
use parallelis_distributed_e.Repository.{save, find_by_id, find_by_status_and_scheduled_at_before}
use parallelis_distributed_e.CacheService.{job_cache_key, get_job, invalidate_job}
use parallelis_distributed_e.JobWorker.{completed_job, acknowledge}
use parallelis_distributed_e.Lifecycle.{Invariant}
use parallelis_distributed_e.Lifecycle.Stores
use parallelis_distributed_e.Lifecycle.Stores.{Everywhere}
use parallelis_distributed_e.Lifecycle.Operations
use parallelis_distributed_e.Lifecycle.Polls
use parallelis_distributed_e.System.{Config}
use parallelis_distributed_e.System.Threads.{
  Thread, begun, missed, loaded, taken, failing, outdated, uncached, committing, polling, queued,
  sent, ended, after_get, after_find, after_save, after_query, after_write, begin_parsed,
  process_taken, advance,
}

-- The jobs that a goroutine holds.
abbrev pub Holds : (Job → Type 0) → Thread → Type 0
Holds P (loaded msg j) = P j
Holds P (taken msg j) = P j
Holds P (failing msg message j) = P j
Holds P (outdated msg j) = P j
Holds P (uncached msg j) = P j
Holds P (queued js) = (j : Job) → Memᴰ j js → P j × (j.status ≡ pending)
Holds P (sent j js) =
    P j × (j.status ≡ pending) × ((i : Job) → Memᴰ i js → P i × (i.status ≡ pending))
Holds P (begun msg) = Unit
Holds P (missed msg id) = Unit
Holds P (committing msg) = Unit
Holds P polling = Unit
Holds P ended = Unit

abbrev pub AllHold : (Job → Type 0) → List Thread → Type 0
AllHold P [] = Unit
AllHold P (t ∷ ts) = Holds P t × AllHold P ts

module _ ⦃S : Services⦄ (laws : ServiceLaws S) (c : Config) {P : Job → Type 0}
    {Fresh : Uuid → Type 0} (inv : Invariant P Fresh) where
  -- A call keeps the property of what the stores hold, and of what its goroutine holds.
  abbrev pub Keeps : Thread → World → Type 0
  Keeps t w = Everywhere laws inv w × Holds P t

  got :
      (msg : Message) (id : Uuid) (o : Option Job)
      → Operations.IfAny laws inv o
      → Holds P (after_get msg id o)
  unfolding after_get
  got msg id none h = tt
  got msg id (some j) h = h

  begin_parsed-Keeps :
      (msg : Message) (r : Result Uuid) (w : World)
      → Everywhere laws inv w
      → Keeps (begin_parsed msg r w).0 (begin_parsed msg r w).1
  unfolding begin_parsed get_job
  begin_parsed-Keeps msg (err e) w good = (good, tt)
  begin_parsed-Keeps msg (ok id) w good = (
    Stores.get-Everywhere laws inv (job_cache_key id) w good,
    got msg id _ (Operations.decode_reply_sound laws inv (job_cache_key id) w _ good refl),
  )

  found-Keeps :
      (msg : Message) (r : Result Job) (w : World)
      → ((j : Job) → r ≡ ok j → P j)
      → Everywhere laws inv w
      → Keeps (after_find msg r) w
  unfolding after_find
  found-Keeps msg (err e) w h good = (good, tt)
  found-Keeps msg (ok j) w h good = (good, h j refl)

  saved-Keeps :
      (msg : Message) (saved : Option Str × Job) (w : World)
      → Everywhere laws inv w × P saved.1
      → Keeps (after_save msg saved) w
  unfolding after_save
  saved-Keeps msg (some e, j) w h = h
  saved-Keeps msg (none, j) w h = h

  completed-Keeps :
      (msg : Message) (j : Job) (w : World)
      → Keeps (taken msg j) w
      → Keeps
          (after_save msg (save (completed_job (now w).0 j) (now w).1).0)
          (save (completed_job (now w).0 j) (now w).1).1
  completed-Keeps msg j w (good, h) = saved-Keeps msg _ _ (
      Stores.save-Everywhere laws inv _ _ (inv.of_completed _ j h)
        (Operations.now-Everywhere laws inv w good))

  type-Keeps :
      (t : JobType) (msg : Message) (j : Job) (w : World)
      → Keeps (taken msg j) w
      → Keeps (process_taken msg t j w).0 (process_taken msg t j w).1
  unfolding process_taken
  type-Keeps payment_process msg j w h = completed-Keeps msg j w h
  type-Keeps email_confirmation msg j w h = completed-Keeps msg j w h
  type-Keeps (other name) msg j w h = h

  query-Keeps :
      (r : Result (List Job)) (w : World)
      → ((js : List Job) (j : Job) → r ≡ ok js → Memᴰ j js → P j × (j.status ≡ pending))
      → Everywhere laws inv w
      → Keeps (after_query r) w
  unfolding after_query
  query-Keeps (err e) w h good = (good, tt)
  query-Keeps (ok js) w h good = (good, λ j m. h js j refl m)

  written-Keeps :
      (j : Job) (js : List Job) (o : Option Str) (w : World)
      → Keeps (queued (j ∷ js)) w
      → Keeps (after_write j js o) w
  unfolding after_write
  written-Keeps j js (some e) w (good, h) = (good, λ i m. h i (Memᴰ.tail m))
  written-Keeps j js none w (good, h) =
      let (sound, waiting) = h j (Memᴰ.head refl) in
      (good, (sound, waiting, λ i m. h i (Memᴰ.tail m)))

  polled-Keeps :
      (w : World)
      → Everywhere laws inv w
      → Keeps (advance c.cache polling w).0 (advance c.cache polling w).1
  unfolding advance find_by_status_and_scheduled_at_before
  polled-Keeps w good =
      let ready = Operations.now-Everywhere laws inv w good in
      query-Keeps _ _
        (λ js j e m.
          let (sound, due) = Stores.find_sound laws inv _ js j (now w).1 ready e m in
          (sound, Polls.pending_of_due _ j due))
        (Stores.find-Everywhere laws inv _ _ ready)

  pub advance-Keeps :
      (t : Thread) (w : World) → Keeps t w → Keeps (advance c.cache t w).0 (advance c.cache t w).1
  unfolding advance find_by_id acknowledge invalidate_job
  advance-Keeps (begun msg) w (good, h) = begin_parsed-Keeps msg _ w good
  advance-Keeps (missed msg id) w (good, h) =
      found-Keeps msg _ _ (λ j e. Stores.first_sound laws inv (id_is id) j w good e)
        (Stores.first-Everywhere laws inv (id_is id) w good)
  advance-Keeps (loaded msg j) w (good, h) =
      (Operations.cache_job-Everywhere laws inv c.cache j w h good, h)
  advance-Keeps (taken msg j) w h = type-Keeps j.type msg j w h
  advance-Keeps (failing msg message j) w (good, h) =
      let ready =
        Operations.now-Everywhere laws inv (now w).1 (Operations.now-Everywhere laws inv w good) in
      Stores.save-Everywhere laws inv _ _ (inv.of_failed message _ _ j h) ready
  advance-Keeps (outdated msg j) w (good, h) = (Stores.del-Everywhere laws inv _ w good, h)
  advance-Keeps (uncached msg j) w (good, h) =
      (Operations.cache_job-Everywhere laws inv c.cache j w h good, tt)
  advance-Keeps (committing msg) w (good, h) = (Operations.broker-Everywhere laws inv _ w good, tt)
  advance-Keeps polling w (good, h) = polled-Keeps w good
  advance-Keeps (queued []) w h = (h.0, tt)
  advance-Keeps (queued (j ∷ js)) w (good, h) =
      written-Keeps j js _ _ (Operations.broker-Everywhere laws inv _ w good, h)
  advance-Keeps (sent j js) w (good, (sound, waiting, rest)) = (
    (Stores.save-Everywhere laws inv _ _ (inv.of_running _ j sound waiting)
        (Operations.now-Everywhere laws inv w good)).0,
    rest,
  )
  advance-Keeps ended w h = h
