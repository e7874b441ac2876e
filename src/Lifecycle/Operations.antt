-- ===== src/Lifecycle/Operations.antt =====
-- Every operation of the services keeps such a property of what the database and the cache hold.
use parallelis_distributed_e.Base.{
  suc, ◌≡◌, refl, inl, inr, Option, some, none, Str, Result, ok, err, ◌==◌, Bool-cases,
}
use parallelis_distributed_e.Model.{
  Uuid, uuid_nil, JobType, payment_process, email_confirmation, other, Job,
}
use parallelis_distributed_e.Services.{
  Reply, found, absent, broken, id_is, Message, Services, World, ServiceLaws, on_cache, now,
  new_uuid,
}
use parallelis_distributed_e.Dto.{JobRequest}
use parallelis_distributed_e.Repository.{find_by_id}
use parallelis_distributed_e.CacheService.{
  CacheService, job_cache_key, decoded, decode_reply, cache_text, get_job, cache_job,
  invalidate_job, update_job,
}
use parallelis_distributed_e.JobService.{create_job}
use parallelis_distributed_e.JobWorker.{
  process_by_type, finish, settle, cache_loaded, or_load, run_found, process_parsed, acknowledge,
  fetch_job, handle_job_failure, complete, process_job_internal, run_job, process_job,
}
use parallelis_distributed_e.Lifecycle.{Invariant}
use parallelis_distributed_e.Lifecycle.Stores

module _ ⦃S : Services⦄ (laws : ServiceLaws S) {P : Job → Type 0} {Fresh : Uuid → Type 0}
    (inv : Invariant P Fresh) where
  abbrev Everywhere : World → Type 0
  Everywhere = Stores.Everywhere laws inv

  cache_text-Everywhere :
      (cs : CacheService) (j : Job) (r : Result Str) (w : World)
      → S.marshal j ≡ r
      → P j
      → Everywhere w
      → Everywhere (cache_text cs j.id r w).1
  unfolding cache_text
  cache_text-Everywhere cs j (err e) w m h good = good
  cache_text-Everywhere cs j (ok text) w m h good =
      Stores.set-Everywhere laws inv _ text _ j w refl m h good

  pub cache_job-Everywhere :
      (cs : CacheService) (j : Job) (w : World)
      → P j
      → Everywhere w
      → Everywhere (cache_job cs j w).1
  unfolding cache_job
  cache_job-Everywhere cs j w h good = elim (Bool-cases (j.id == uuid_nil)) [
    | inl unnamed ↦ rw unnamed good
    | inr named ↦ rw named (cache_text-Everywhere cs j (S.marshal j) w refl h good)
  ]

  pub update_job-Everywhere :
      (cs : CacheService) (j : Job) (w : World)
      → P j
      → Everywhere w
      → Everywhere (update_job cs j w).1
  unfolding update_job invalidate_job
  update_job-Everywhere cs j w h good =
      cache_job-Everywhere cs j _ h (Stores.del-Everywhere laws inv _ w good)

  pub now-Everywhere : (w : World) → Everywhere w → Everywhere (now w).1
  now-Everywhere w good = record { rows = good.rows; cached = good.cached; fresh = good.fresh }

  new_uuid-Everywhere :
      (w : World) → Everywhere w → Everywhere (new_uuid w).1 × Fresh (new_uuid w).0
  new_uuid-Everywhere w good = (
    record { rows = good.rows; cached = good.cached; fresh = λ n. good.fresh (suc n) },
    good.fresh 0,
  )

  -- The queue holds no job.
  pub broker-Everywhere :
      (b : S.queue.Broker) (w : World) → Everywhere w → Everywhere (record w { broker = b })
  broker-Everywhere b w good = record { rows = good.rows; cached = good.cached; fresh = good.fresh }

  pub handle_job_failure-Everywhere :
      (cs : CacheService) (j : Job) (message : Str) (w : World)
      → P j
      → Everywhere w
      → Everywhere (handle_job_failure cs j message w).1
  unfolding handle_job_failure
  handle_job_failure-Everywhere cs j message w h good =
      let ready = now-Everywhere (now w).1 (now-Everywhere w good) in
      let (kept, stored) =
        Stores.save-Everywhere laws inv _ _ (inv.of_failed message _ _ j h) ready in
      update_job-Everywhere cs _ _ stored kept

  finish-Everywhere :
      (cs : CacheService) (saved : Option Str × Job) (w : World)
      → P saved.1
      → Everywhere w
      → Everywhere (finish cs saved w).1 × P (finish cs saved w).0.1
  unfolding finish
  finish-Everywhere cs (some e, j) w h good = (good, h)
  finish-Everywhere cs (none, j) w h good = (update_job-Everywhere cs j w h good, h)

  complete-Everywhere :
      (cs : CacheService) (j : Job) (w : World)
      → P j
      → Everywhere w
      → Everywhere (complete cs j w).1 × P (complete cs j w).0.1
  unfolding complete
  complete-Everywhere cs j w h good =
      let (kept, stored) =
        Stores.save-Everywhere laws inv _ _ (inv.of_completed _ j h) (now-Everywhere w good) in
      finish-Everywhere cs _ _ stored kept

  process_by_type-Everywhere :
      (t : JobType) (cs : CacheService) (j : Job) (w : World)
      → P j
      → Everywhere w
      → Everywhere (process_by_type t cs j w).1 × P (process_by_type t cs j w).0.1
  unfolding process_by_type
  process_by_type-Everywhere payment_process cs j w h good = complete-Everywhere cs j w h good
  process_by_type-Everywhere email_confirmation cs j w h good = complete-Everywhere cs j w h good
  process_by_type-Everywhere (other name) cs j w h good = (good, h)

  settle-Everywhere :
      (cs : CacheService) (result : Option Str × Job) (w : World)
      → P result.1
      → Everywhere w
      → Everywhere (settle cs result w).1
  unfolding settle
  settle-Everywhere cs (none, j) w h good = good
  settle-Everywhere cs (some message, j) w h good =
      handle_job_failure-Everywhere cs j message w h good

  run_job-Everywhere :
      (cs : CacheService) (j : Job) (w : World) → P j → Everywhere w → Everywhere (run_job cs j w).1
  unfolding run_job process_job_internal
  run_job-Everywhere cs j w h good =
      let (kept, sound) = process_by_type-Everywhere j.type cs j w h good in
      settle-Everywhere cs _ _ sound kept

  abbrev pub IfAny : Option Job → Type 0
  IfAny none = Unit
  IfAny (some j) = P j

  decoded_sound : (r : Result Job) → ((j : Job) → r ≡ ok j → P j) → IfAny (decoded r)
  unfolding decoded
  decoded_sound (ok j) h = h j refl
  decoded_sound (err e) h = tt

  pub decode_reply_sound :
      (key : Str) (w : World) (r : Reply)
      → Everywhere w
      → (on_cache (S.cache.get key) w).0 ≡ r
      → IfAny (decode_reply r)
  unfolding decode_reply
  decode_reply_sound key w absent good e = tt
  decode_reply_sound key w (broken m) good e = tt
  decode_reply_sound key w (found text) good e =
      decoded_sound (S.unmarshal text)
        (λ j p. (Stores.found_sound laws inv key text j w good e p).0)

  cache_loaded-Everywhere :
      (cs : CacheService) (r : Result Job) (w : World)
      → ((j : Job) → r ≡ ok j → P j)
      → Everywhere w
      → Everywhere (cache_loaded cs r w).1 × IfAny (cache_loaded cs r w).0
  unfolding cache_loaded
  cache_loaded-Everywhere cs (err e) w h good = (good, tt)
  cache_loaded-Everywhere cs (ok j) w h good =
      (cache_job-Everywhere cs j w (h j refl) good, h j refl)

  or_load-Everywhere :
      (cs : CacheService) (id : Uuid) (o : Option Job) (w : World)
      → IfAny o
      → Everywhere w
      → Everywhere (or_load cs id o w).1 × IfAny (or_load cs id o w).0
  unfolding or_load find_by_id
  or_load-Everywhere cs id (some j) w h good = (good, h)
  or_load-Everywhere cs id none w h good =
      cache_loaded-Everywhere cs _ _ (λ j e. Stores.first_sound laws inv (id_is id) j w good e)
        (Stores.first-Everywhere laws inv (id_is id) w good)

  fetch_job-Everywhere :
      (cs : CacheService) (id : Uuid) (w : World)
      → Everywhere w
      → Everywhere (fetch_job cs id w).1 × IfAny (fetch_job cs id w).0
  unfolding fetch_job get_job
  fetch_job-Everywhere cs id w good =
      or_load-Everywhere cs id _ _ (decode_reply_sound (job_cache_key id) w _ good refl)
        (Stores.get-Everywhere laws inv (job_cache_key id) w good)

  run_found-Everywhere :
      (cs : CacheService) (msg : Message) (o : Option Job) (w : World)
      → IfAny o
      → Everywhere w
      → Everywhere (run_found cs msg o w).1
  unfolding run_found acknowledge
  run_found-Everywhere cs msg none w h good = broker-Everywhere _ w good
  run_found-Everywhere cs msg (some j) w h good =
      broker-Everywhere _ _ (run_job-Everywhere cs j w h good)

  process_parsed-Everywhere :
      (cs : CacheService) (msg : Message) (r : Result Uuid) (w : World)
      → Everywhere w
      → Everywhere (process_parsed cs msg r w).1
  unfolding process_parsed acknowledge
  process_parsed-Everywhere cs msg (err e) w good = broker-Everywhere _ w good
  process_parsed-Everywhere cs msg (ok id) w good =
      let (fetched, sound) = fetch_job-Everywhere cs id w good in
      run_found-Everywhere cs msg _ _ sound fetched

  -- Handling a message.
  pub process_job-Everywhere :
      (cs : CacheService) (msg : Message) (w : World)
      → Everywhere w
      → Everywhere (process_job cs msg w).1
  unfolding process_job
  process_job-Everywhere cs msg w good = process_parsed-Everywhere cs msg _ w good

  -- Creating a job.
  pub create_job-Everywhere :
      (client_id : Str) (request : JobRequest) (w : World)
      → Everywhere w
      → Everywhere (create_job client_id request w).1
  unfolding create_job
  create_job-Everywhere client_id request w good =
      let (ready, new) = new_uuid-Everywhere _ (now-Everywhere w good) in
      (Stores.save-Everywhere laws inv _ _ (inv.of_requested _ _ client_id request new) ready).0
