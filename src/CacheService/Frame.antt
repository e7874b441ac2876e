-- ===== src/CacheService/Frame.antt =====
-- Writing to the job cache changes nothing but the cache.
use parallelis_distributed_e.Base.{◌≡◌, refl, Str, Result, ok, err, ◌==◌, Bool-cases, inl, inr}
use parallelis_distributed_e.Model.{Uuid, uuid_nil, Job}
use parallelis_distributed_e.Services.{Services, World}
use parallelis_distributed_e.CacheService.{
  CacheService, cache_text, cache_job, invalidate_job, update_job,
}

module _ ⦃S : Services⦄ where
  frame-cache_text :
      (cs : CacheService) (id : Uuid) (r : Result Str) (w : World)
      → (cache_text cs id r w).1 ≡ record w { store = (cache_text cs id r w).1.store }
  unfolding cache_text
  frame-cache_text cs id (err e) w = refl
  frame-cache_text cs id (ok text) w = refl

  pub frame-cache_job :
      (cs : CacheService) (j : Job) (w : World)
      → (cache_job cs j w).1 ≡ record w { store = (cache_job cs j w).1.store }
  unfolding cache_job
  frame-cache_job cs j w = elim (Bool-cases (j.id == uuid_nil)) [
    | inl unnamed ↦ rw unnamed refl
    | inr named ↦ rw named (frame-cache_text cs j.id (S.marshal j) w)
  ]

  pub frame-update_job :
      (cs : CacheService) (j : Job) (w : World)
      → (update_job cs j w).1 ≡ record w { store = (update_job cs j w).1.store }
  unfolding update_job invalidate_job
  frame-update_job cs j w = frame-cache_job cs j _
