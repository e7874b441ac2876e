-- ===== src/JobWorker/Fetch.antt =====
-- Where the worker takes the job of a message from, and what that leaves alone.
use parallelis_distributed_e.Base.{
  ◌≡◌, ◌≢◌, refl, ap, ◌∙◌, Option, some, none, Str, Result, ok, err, ◌==◌, ==-refl, true, arith,
}
use parallelis_distributed_e.Model.{Uuid, uuid_nil, Job}
use parallelis_distributed_e.Services.{Condition, id_is, matches, Services, World, ServiceLaws}
use parallelis_distributed_e.Repository.{save, find_by_id}
use parallelis_distributed_e.CacheService.{CacheService}
use parallelis_distributed_e.CacheService.Frame.{frame-cache_job}
use parallelis_distributed_e.JobWorker.{cache_loaded, or_load}
use parallelis_distributed_e.JobController.Lookup.{first_known}
use parallelis_distributed_e.Lifecycle.Hooked.{id-Stored}

module _ ⦃S : Services⦄ (laws : ServiceLaws S)
    (writes_up : (j : Job) (t : S.database.Tables) → (S.database.save j t).0.0 ≡ none) where
  open laws use {database.{row}}

  -- A save writes the row of a job that has an identifier.
  pub row-save :
      (j : Job) (w : World) → j.id ≢ uuid_nil → row (save j w).1.tables j.id ≡ some (save j w).0.1
  unfolding save
  row-save j w named =
      let k = (S.database.save j w.tables).0.1 in
      let same : (k.id == j.id) ≡ true =
        rw (id-Stored (laws.database.save_stored j w.tables) named) (==-refl j.id) in
      laws.database.row-save_ok j w.tables j.id (writes_up j w.tables) ∙ rw same refl

module _ ⦃S : Services⦄ where
  clock-cache_loaded :
      (cs : CacheService) (r : Result Job) (w : World) → (cache_loaded cs r w).1.clock ≡ w.clock
  unfolding cache_loaded
  clock-cache_loaded cs (err e) w = refl
  clock-cache_loaded cs (ok j) w = ap (λ (u : World). u.clock) (frame-cache_job cs j w)

  tables-cache_loaded :
      (cs : CacheService) (r : Result Job) (w : World) → (cache_loaded cs r w).1.tables ≡ w.tables
  unfolding cache_loaded
  tables-cache_loaded cs (err e) w = refl
  tables-cache_loaded cs (ok j) w = ap (λ (u : World). u.tables) (frame-cache_job cs j w)

  pub clock-or_load :
      (cs : CacheService) (id : Uuid) (o : Option Job) (w : World)
      → (or_load cs id o w).1.clock ≡ w.clock
  unfolding or_load find_by_id
  clock-or_load cs id (some j) w = refl
  clock-or_load cs id none w = clock-cache_loaded cs _ _

  cache_loaded-ok :
      (cs : CacheService) (k : Job) (r : Result Job) (v : World)
      → r ≡ ok k
      → (cache_loaded cs r v).0 ≡ some k
  unfolding cache_loaded
  cache_loaded-ok cs k (ok j) v e = ground arith
  cache_loaded-ok cs k (err m) v e = cc

module _ ⦃S : Services⦄ (laws : ServiceLaws S) where
  open laws use {database.{row}}

  pub row-or_load :
      (cs : CacheService) (id : Uuid) (o : Option Job) (w : World) (other : Uuid)
      → row (or_load cs id o w).1.tables other ≡ row w.tables other
  unfolding or_load find_by_id
  row-or_load cs id (some j) w other = refl
  row-or_load cs id none w other =
      ap (λ t. row t other) (tables-cache_loaded cs _ _)
      ∙ laws.database.row-first (id_is id) w.tables other

module _ ⦃S : Services⦄ (laws : ServiceLaws S)
    (reads_up : (c : Condition) (t : S.database.Tables) (e : Str) (j : Job)
      → (S.database.first c t).0 ≡ err e
      → matches c j ≡ true
      → laws.database.row t j.id ≢ some j) where
  open laws use {database.{row}}

  -- What holds of the row of a job, and of what the cache has of it if it has any, holds of the job
  -- that the worker takes.
  pub or_load_lem :
      (P : Job → Type 0) (cs : CacheService) (k : Job) (o : Option Job) (w : World)
      → row w.tables k.id ≡ some k
      → P k
      → ((c : Job) → o ≡ some c → P c)
      → (c : Job) × ((or_load cs k.id o w).0 ≡ some c) × P c
  unfolding or_load find_by_id
  or_load_lem P cs k (some c) w stored p agrees = (c, refl, agrees c refl)
  or_load_lem P cs k none w stored p agrees =
      (k, cache_loaded-ok cs k _ _ (first_known laws reads_up k w.tables stored), p)
