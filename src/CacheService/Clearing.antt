-- ===== src/CacheService/Clearing.antt =====
-- Clearing the cache of jobs.
use parallelis_distributed_e.Base.{
  ◌≡◌, refl, ap, ◌∙◌, true, Option-cases, inl, inr, some, none, List, [], ◌∷◌, Memᴰ, Str, bytes,
  Result, ok, starts_with-append, starts_with,
}
use parallelis_distributed_e.Model.{Uuid}
use parallelis_distributed_e.Services.{Reply, found, absent, broken, Services, World, ServiceLaws}
use parallelis_distributed_e.CacheService.{
  job_pattern, job_cache_key, decode_reply, get_job, clear_keys, clear_all_job_caches,
}

module _ ⦃S : Services⦄ (laws : ServiceLaws S) where
  open laws use {cache.{value}}

  -- What `Keys` answers, and the store after it.
  abbrev pub listed : World → Result (List Str)
  listed w = (S.cache.keys job_pattern w.store).0

  abbrev pub after_listing : World → S.cache.Store
  after_listing w = (S.cache.keys job_pattern w.store).1

  -- A key that was listed, or had no value, has none after a deletion that was reported as done.
  gone :
      (k : Str) (ks : List Str) (l : Str) (s : S.cache.Store)
      → (S.cache.del (k ∷ ks) s).0 ≡ none
      → ((v : Str) → value s l ≡ some v → Memᴰ l (k ∷ ks))
      → value (S.cache.del (k ∷ ks) s).1 l ≡ none
  gone k ks l s done all = elim (Option-cases (value (S.cache.del (k ∷ ks) s).1 l)) [
    | inl nothing ↦ nothing
    | inr (v, held) ↦
        laws.cache.value-del_ok (k ∷ ks) l s done (all v (laws.cache.value-del (k ∷ ks) l v s held))
  ]

  cleared :
      (ks : List Str) (l : Str) (w : World)
      → ((k : Str) (rest : List Str) → ks ≡ k ∷ rest → (S.cache.del (k ∷ rest) w.store).0 ≡ none)
      → ((v : Str) → value w.store l ≡ some v → Memᴰ l ks)
      → value (clear_keys (ok ks) w).1.store l ≡ none
  unfolding clear_keys
  cleared [] l w done all = elim (Option-cases (value w.store l)) [
    | inl nothing ↦ nothing
    | inr (v, held) ↦ elim (all v held) [ ]
  ]
  cleared (k ∷ rest) l w done all = gone k rest l w.store (done k rest refl) all

  missed :
      (key : Str) (s : S.cache.Store) (r : Reply)
      → (S.cache.get key s).0 ≡ r
      → value s key ≡ none
      → decode_reply r ≡ none
  unfolding decode_reply
  missed key s absent e nothing = refl
  missed key s (broken m) e nothing = refl
  missed key s (found text) e nothing = cc (laws.cache.get_sound key text s e, nothing)

  job_key_listed : (id : Uuid) → starts_with (bytes "job:") (job_cache_key id) ≡ true
  unfolding job_cache_key
  job_key_listed id = starts_with-append (bytes "job:") (S.uuid_text id)

  -- If Redis answered the listing of the keys, and reported that the deletion of what it listed, if
  -- it listed anything, was done, then after `ClearAllJobCaches` a lookup finds no job in the cache.
  pub get_job-clear_all_job_caches :
      (id : Uuid) (ks : List Str) (w : World)
      → listed w ≡ ok ks
      → ((k : Str) (rest : List Str)
          → ks ≡ k ∷ rest
          → (S.cache.del (k ∷ rest) (after_listing w)).0 ≡ none)
      → (get_job id (clear_all_job_caches w).1).0 ≡ none
  unfolding get_job clear_all_job_caches
  get_job-clear_all_job_caches id ks w answered done =
      let u : World = record w { store = after_listing w } in
      missed (job_cache_key id) _ _ refl (
        ap (λ r. value (clear_keys r u).1.store (job_cache_key id)) answered
        ∙ cleared ks (job_cache_key id) u done (λ v held.
          laws.cache.keys_complete (bytes "job:") (job_cache_key id) v ks w.store refl answered
            (job_key_listed id) held))
