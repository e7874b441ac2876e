-- ===== src/System/Foreign.antt =====
-- Which row the handling of a message and a request can change.
use parallelis_distributed_e.Base.{
  ◌≡◌, ◌≢◌, refl, sym, ap, ◌∙◌, inl, inr, Bool-cases, Option, some, none, [], Str, Result, ok, err,
  ◌==◌, ==→eq, arith,
}
use parallelis_distributed_e.Model.{Time, Uuid, uuid_nil, Job}
use parallelis_distributed_e.Services.{
  id_is, Stored, Reply, found, absent, broken, Message, Services, World, ServiceLaws,
}
use parallelis_distributed_e.Repository.{find_by_id}
use parallelis_distributed_e.CacheService.{
  CacheService, job_cache_key, get_job, decoded, decode_reply,
}
use parallelis_distributed_e.CacheService.Coherence.{job_cache_key_separate}
use parallelis_distributed_e.JobWorker.{
  completed_job, failed_job, cache_loaded, or_load, fetch_job, acknowledge, run_found,
  process_parsed, process_job,
}
use parallelis_distributed_e.JobWorker.Fetch.{row-or_load}
use parallelis_distributed_e.JobWorker.Outcome.{
  Ran, Wrote, completes, retries, refuses, loses, drops, run_job_outcome,
}
use parallelis_distributed_e.Lifecycle.{Invariant}
use parallelis_distributed_e.Lifecycle.Hooked.{id-Stored}
use parallelis_distributed_e.Lifecycle.Stores

pub id-failed_job :
    (message : Str) (updated read : Time) (j : Job) → (failed_job message updated read j).id ≡ j.id
unfolding failed_job
id-failed_job message updated read j = ground arith

id-completed_job : (at : Time) (j : Job) → (completed_job at j).id ≡ j.id
unfolding completed_job
id-completed_job at j = refl

-- A save of what the worker makes of a job keeps the identifier.
id-Stored_of : (j : Job) {i k : Job} → j.id ≢ uuid_nil → i.id ≡ j.id → Stored i k → k.id ≡ j.id
id-Stored_of j named same stored = id-Stored stored (λ e. named (sym same ∙ e)) ∙ same

module _ ⦃S : Services⦄ (laws : ServiceLaws S) (id : Uuid) where
  open laws use {database.{row}}

  abbrev of : World → Option Job
  of w = row w.tables id

  kept_other : (j k : Job) (w u : World) → k.id ≡ j.id → j.id ≢ id → Wrote laws k w u → of u ≡ of w
  kept_other j k w u same other wrote = elim (Bool-cases (k.id == id)) [
    | inl here ↦ absurd (other (sym same ∙ ==→eq k.id id here))
    | inr apart ↦ wrote id ∙ rw apart refl
  ]

  -- Running a job changes no row of another.
  row-Ran : (j : Job) (w u : World) → Ran laws j w u → j.id ≢ uuid_nil → j.id ≢ id → of u ≡ of w
  row-Ran j w u (completes known done after stored wrote) named other =
      kept_other j _ w u (id-Stored_of j named (id-completed_job _ j) stored) other wrote
  row-Ran j w u (retries e known failed done after wrote) named other =
      let same = id-Stored_of j named (id-completed_job _ j) (laws.database.save_stored _ _) in
      kept_other j _ w u
        (id-Stored_of j named (id-failed_job _ _ _ _ ∙ same) (laws.database.save_stored _ _)) other
        wrote
  row-Ran j w u (refuses name unknown done after wrote) named other =
      kept_other j _ w u
        (id-Stored_of j named (id-failed_job _ _ _ j) (laws.database.save_stored _ _)) other wrote
  row-Ran j w u (loses e x known failed again after same) named other = same id
  row-Ran j w u (drops name x unknown failed after same) named other = same id

  row-run_found :
      (cs : CacheService) (msg : Message) (o : Option Job) (w : World)
      → ((j : Job) → o ≡ some j → (j.id ≢ uuid_nil) × (j.id ≢ id))
      → of (run_found cs msg o w).1 ≡ of w
  unfolding run_found acknowledge
  row-run_found cs msg none w h = refl
  row-run_found cs msg (some j) w h =
      let (named, other) = h j refl in row-Ran j w _ (run_job_outcome laws cs j w) named other

module _ ⦃S : Services⦄ (laws : ServiceLaws S) {P : Job → Type 0} {Fresh : Uuid → Type 0}
    (inv : Invariant P Fresh) where
  open laws use {database.{row}}

  -- A job with the property and the identifier.
  abbrev pub Its : Uuid → Job → Type 0
  Its id j = P j × (j.id ≡ id)

  Its-decoded :
      (id : Uuid) (r : Result Job)
      → ((j : Job) → r ≡ ok j → Its id j)
      → (j : Job) → decoded r ≡ some j
      → Its id j
  unfolding decoded
  Its-decoded id (ok k) h j e = h j (cc)
  Its-decoded id (err m) h j e = cc

  Its-decode_reply :
      (id : Uuid) (r : Reply) (w : World)
      → Stores.Everywhere laws inv w
      → (S.cache.get (job_cache_key id) w.store).0 ≡ r
      → (j : Job) → decode_reply r ≡ some j
      → Its id j
  unfolding decode_reply
  Its-decode_reply id absent w good e j d = cc
  Its-decode_reply id (broken m) w good e j d = cc
  Its-decode_reply id (found text) w good e j d =
      Its-decoded id (S.unmarshal text)
        (λ k p.
          let (kept, key) = Stores.found_sound laws inv (job_cache_key id) text k w good e p in
          (kept, sym ((job_cache_key_separate laws id k.id []).0 key)))
        j d

  -- What a lookup in the cache finds for an identifier.
  pub Its-get_job :
      (id : Uuid) (w : World)
      → Stores.Everywhere laws inv w
      → (j : Job) → (get_job id w).0 ≡ some j
      → Its id j
  unfolding get_job
  Its-get_job id w good = Its-decode_reply id _ w good refl

  Its-cache_loaded :
      (cs : CacheService) (id : Uuid) (r : Result Job) (w : World)
      → ((j : Job) → r ≡ ok j → Its id j)
      → (j : Job) → (cache_loaded cs r w).0 ≡ some j
      → Its id j
  unfolding cache_loaded
  Its-cache_loaded cs id (ok k) w h j e = h j (cc)
  Its-cache_loaded cs id (err m) w h j e = cc

  Its-or_load :
      (cs : CacheService) (id : Uuid) (o : Option Job) (w : World)
      → Stores.Everywhere laws inv w
      → ((j : Job) → o ≡ some j → Its id j)
      → (j : Job) → (or_load cs id o w).0 ≡ some j
      → Its id j
  unfolding or_load find_by_id
  Its-or_load cs id (some k) w good h j e = h j e
  Its-or_load cs id none w good h j e =
      Its-cache_loaded cs id _ _
        (λ k p.
          let (stored, fits) = laws.database.first_sound (id_is id) w.tables k p in
          (good.rows k.id k stored, ==→eq k.id id fits))
        j e

  module _ (named : (j : Job) → P j → j.id ≢ uuid_nil) (cs : CacheService) (id : Uuid) where
    row-process_parsed :
        (msg : Message) (r : Result Uuid) (w : World)
        → Stores.Everywhere laws inv w
        → r ≢ ok id
        → row (process_parsed cs msg r w).1.tables id ≡ row w.tables id
    unfolding process_parsed acknowledge fetch_job get_job
    row-process_parsed msg (err e) w good other = refl
    row-process_parsed msg (ok own) w good other =
        let (o, u) = get_job own w in
        let (fetched, v) = or_load cs own o u in
        row-run_found laws id cs msg fetched v (λ j e.
          let (kept, same) =
            Its-or_load cs own o u (Stores.get-Everywhere laws inv (job_cache_key own) w good)
              (Its-get_job own w good) j e in
          (named j kept, λ here. other (ap ok (sym same ∙ here))))
        ∙ row-or_load laws cs own o u id

    -- Handling a message of another job leaves the row alone, whatever fails.
    pub row-process_job :
        (msg : Message) (w : World)
        → Stores.Everywhere laws inv w
        → S.parse_uuid msg.value ≢ ok id
        → row (process_job cs msg w).1.tables id ≡ row w.tables id
    unfolding process_job
    row-process_job msg w good other = row-process_parsed msg _ w good other
