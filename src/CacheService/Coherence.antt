-- ===== src/CacheService/Coherence.antt =====
-- What a lookup in the cache finds after a job was written to it, and which keys the cache uses.
use parallelis_distributed_e.Base.{
  ℕ, ◌≡◌, ◌≢◌, refl, sym, ap, ◌∙◌, false, some, none, [], ◌∷◌, Str, bytes, Result, ok, err,
  append-cancel_left, ◌==◌, arith,
}
use parallelis_distributed_e.Model.{Uuid, uuid_nil, Job}
use parallelis_distributed_e.Services.{Reply, found, absent, broken, Services, World, ServiceLaws}
use parallelis_distributed_e.RateLimitService.{rate_limit_key}
use parallelis_distributed_e.CacheService.{
  CacheService, job_cache_key, decoded, decode_reply, get_job, cache_text, cache_job,
  invalidate_job, update_job, minutes,
}

abbrev pub first_byte : Str → ℕ
first_byte [] = 0
first_byte (c ∷ s) = c

-- 'j' is not 'r'.
pub apart : ◌≡◌ {A = ℕ} 106 114 → ⊥
apart e = omega arith

module _ ⦃S : Services⦄ (laws : ServiceLaws S) where
  open laws use {cache.{value}}

  ok_injective : (a b : Uuid) → ◌≡◌ {A = Result Uuid} (ok a) (ok b) → a ≡ b
  ok_injective a b e = cc

  -- Two jobs share a cache key only if they share their identifier, and no job shares a key with a
  -- client's rate limit.
  pub job_cache_key_separate :
      (a b : Uuid) (client_id : Str)
      → (job_cache_key a ≡ job_cache_key b → a ≡ b) × (job_cache_key a ≢ rate_limit_key client_id)
  unfolding job_cache_key rate_limit_key
  job_cache_key_separate a b client_id = (
    λ e. ok_injective a b (
        sym (laws.codec.parse_uuid-uuid_text a)
        ∙ ap S.parse_uuid (append-cancel_left (bytes "job:") _ _ e)
        ∙ laws.codec.parse_uuid-uuid_text b),
    λ e. apart (ap first_byte e),
  )

  some_ok : (j k : Job) (r : Result Job) → r ≡ ok j → decoded r ≡ some k → k ≡ j
  unfolding decoded
  some_ok j k (ok i) m e = cc
  some_ok j k (err x) m e = cc

  hit_of_reply :
      (j k : Job) (text : Str) (r : Reply)
      → S.unmarshal text ≡ ok j
      → ((t : Str) → r ≡ found t → t ≡ text)
      → decode_reply r ≡ some k
      → k ≡ j
  unfolding decode_reply
  hit_of_reply j k text absent m same e = cc
  hit_of_reply j k text (broken x) m same e = cc
  hit_of_reply j k text (found t) m same e =
      some_ok j k (S.unmarshal t) (ap S.unmarshal (same t refl) ∙ m) e

  -- Caching a job that has an identifier and a text is one write.
  store-cache_job :
      (cs : CacheService) (j : Job) (w : World) (text : Str)
      → j.id ≢ uuid_nil
      → S.marshal j ≡ ok text
      → (cache_job cs j w).1.store
        ≡ (S.cache.set (job_cache_key j.id) text (minutes cs.job_cache_ttl_minutes) w.store).1
  unfolding cache_job cache_text
  store-cache_job cs j w text named m =
      let test : (j.id == uuid_nil) ≡ false = ground arith in rw (test, m) refl

  -- If the job has an identifier and a text, and Redis reported that the write of the text in
  -- `UpdateJob` succeeded, then a lookup that follows finds that job or nothing.
  pub get_job-update_job :
      (cs : CacheService) (j k : Job) (w : World) (text : Str)
      → j.id ≢ uuid_nil
      → S.marshal j ≡ ok text
      → (S.cache.set
          (job_cache_key j.id)
          text
          (minutes cs.job_cache_ttl_minutes)
          (S.cache.del (job_cache_key j.id ∷ []) w.store).1).0
        ≡ none
      → (get_job j.id (update_job cs j w).1).0 ≡ some k
      → k ≡ j
  unfolding get_job update_job invalidate_job
  get_job-update_job cs j k w text named m written e =
      let key = job_cache_key j.id in
      let gone = (S.cache.del (key ∷ []) w.store).1 in
      let ttl = minutes cs.job_cache_ttl_minutes in
      let stored : (cache_job cs j (record w { store = gone })).1.store
          ≡ (S.cache.set key text ttl gone).1 =
        store-cache_job cs j (record w { store = gone }) text named m in
      hit_of_reply j k text (S.cache.get key (S.cache.set key text ttl gone).1).0
        (laws.codec.unmarshal-marshal j text m)
        (λ t found_t.
          laws.cache.value-set_ok key text t ttl gone written
            (laws.cache.get_sound key t (S.cache.set key text ttl gone).1 found_t))
        (ap (λ s. decode_reply (S.cache.get key s).0) (sym stored) ∙ e)
