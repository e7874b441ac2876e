-- ===== src/System/Untouched.antt =====
-- The cache of jobs and the worker leave the rate limits alone.
use parallelis_distributed_e.Base.{
  ℕ, Bool, ◌≡◌, ◌≢◌, refl, sym, ap, ◌∙◌, false, true, some, none, Option, inl, inr, Bool-cases,
  List, [], ◌∷◌, Memᴰ, Str, bytes, Result, ok, err, ◌==◌, starts_with,
}
use parallelis_distributed_e.Model.{
  Uuid, uuid_nil, JobType, payment_process, email_confirmation, other, Job,
}
use parallelis_distributed_e.Services.{Message, Services, World, CounterLaws, SeparationLaws}
use parallelis_distributed_e.Repository.{save, find_by_id}
use parallelis_distributed_e.RateLimitService.{rate_limit_key}
use parallelis_distributed_e.RateLimitService.Isolation.{str_eq-apart}
use parallelis_distributed_e.CacheService.{
  CacheService, job_pattern, job_cache_key, get_job, cache_text, cache_job, invalidate_job,
  update_job, clear_keys, clear_all_job_caches,
}
use parallelis_distributed_e.CacheService.Coherence.{apart, first_byte}
use parallelis_distributed_e.JobWorker.{
  process_by_type, finish, settle, cache_loaded, or_load, run_found, process_parsed, acknowledge,
  fetch_job, handle_job_failure, complete, process_job_internal, run_job, process_job,
}

pub not_listed : (k l : Str) → k ≢ l → Memᴰ l (k ∷ []) → ⊥
not_listed k l h (Memᴰ.head e) = h (sym e)
not_listed k l h (Memᴰ.tail m) = elim m [ ]

module _ ⦃S : Services⦄ where
  job_cache_key-apart : (id : Uuid) (client_id : Str) → job_cache_key id ≢ rate_limit_key client_id
  unfolding job_cache_key rate_limit_key
  job_cache_key-apart id client_id e = apart (ap first_byte e)

module _ ⦃S : Services⦄ (counters : CounterLaws S.cache)
    (apart_laws : SeparationLaws S.cache counters) (client_id g : Str) where
  -- A field of the client's hash.
  abbrev pub field_of : World → Option ℕ
  field_of w = counters.field w.store (rate_limit_key client_id) g

  field-cache_text :
      (cs : CacheService) (id : Uuid) (r : Result Str) (w : World)
      → field_of (cache_text cs id r w).1 ≡ field_of w
  unfolding cache_text
  field-cache_text cs id (err e) w = refl
  field-cache_text cs id (ok text) w =
      apart_laws.field-set (job_cache_key id) text _ g _ w.store
        (str_eq-apart _ _ (job_cache_key-apart id client_id))

  field-cache_job :
      (cs : CacheService) (j : Job) (w : World) → field_of (cache_job cs j w).1 ≡ field_of w
  unfolding cache_job
  field-cache_job cs j w = elim (Bool-cases (j.id == uuid_nil)) [
    | inl unnamed ↦ rw unnamed refl
    | inr named ↦ rw named (field-cache_text cs j.id (S.marshal j) w)
  ]

  field-update_job :
      (cs : CacheService) (j : Job) (w : World) → field_of (update_job cs j w).1 ≡ field_of w
  unfolding update_job invalidate_job
  field-update_job cs j w =
      field-cache_job cs j _
      ∙ apart_laws.field-del (job_cache_key j.id ∷ []) _ g w.store
          (not_listed _ _ (job_cache_key-apart j.id client_id))

  field-handle_job_failure :
      (cs : CacheService) (j : Job) (message : Str) (w : World)
      → field_of (handle_job_failure cs j message w).1 ≡ field_of w
  unfolding handle_job_failure save
  field-handle_job_failure cs j message w = field-update_job cs _ _

  field-finish :
      (cs : CacheService) (saved : Option Str × Job) (w : World)
      → field_of (finish cs saved w).1 ≡ field_of w
  unfolding finish
  field-finish cs (some e, j) w = refl
  field-finish cs (none, j) w = field-update_job cs j w

  field-process_by_type :
      (t : JobType) (cs : CacheService) (j : Job) (w : World)
      → field_of (process_by_type t cs j w).1 ≡ field_of w
  unfolding process_by_type complete save
  field-process_by_type payment_process cs j w = field-finish cs _ _
  field-process_by_type email_confirmation cs j w = field-finish cs _ _
  field-process_by_type (other name) cs j w = refl

  field-settle :
      (cs : CacheService) (result : Option Str × Job) (w : World)
      → field_of (settle cs result w).1 ≡ field_of w
  unfolding settle
  field-settle cs (none, j) w = refl
  field-settle cs (some message, j) w = field-handle_job_failure cs j message w

  field-run_found :
      (cs : CacheService) (msg : Message) (o : Option Job) (w : World)
      → field_of (run_found cs msg o w).1 ≡ field_of w
  unfolding run_found acknowledge run_job process_job_internal
  field-run_found cs msg none w = refl
  field-run_found cs msg (some j) w = field-settle cs _ _ ∙ field-process_by_type j.type cs j w

  field-cache_loaded :
      (cs : CacheService) (r : Result Job) (w : World)
      → field_of (cache_loaded cs r w).1 ≡ field_of w
  unfolding cache_loaded
  field-cache_loaded cs (err e) w = refl
  field-cache_loaded cs (ok j) w = field-cache_job cs j w

  field-or_load :
      (cs : CacheService) (id : Uuid) (o : Option Job) (w : World)
      → field_of (or_load cs id o w).1 ≡ field_of w
  unfolding or_load find_by_id
  field-or_load cs id (some j) w = refl
  field-or_load cs id none w = field-cache_loaded cs _ _

  field-process_parsed :
      (cs : CacheService) (msg : Message) (r : Result Uuid) (w : World)
      → field_of (process_parsed cs msg r w).1 ≡ field_of w
  unfolding process_parsed acknowledge fetch_job get_job
  field-process_parsed cs msg (err e) w = refl
  field-process_parsed cs msg (ok id) w =
      field-run_found cs msg _ _
      ∙ field-or_load cs id _ _
      ∙ apart_laws.field-get (job_cache_key id) _ g w.store

  -- Handling a message.
  pub field-process_job :
      (cs : CacheService) (msg : Message) (w : World)
      → field_of (process_job cs msg w).1 ≡ field_of w
  unfolding process_job
  field-process_job cs msg w = field-process_parsed cs msg _ w

  limit_key_unlisted : starts_with (bytes "job:") (rate_limit_key client_id) ≡ false
  unfolding rate_limit_key starts_with
  limit_key_unlisted = refl

  field-clear_keys :
      (r : Result (List Str)) (w : World)
      → ((ks : List Str) → r ≡ ok ks → Memᴰ (rate_limit_key client_id) ks → ⊥)
      → field_of (clear_keys r w).1 ≡ field_of w
  unfolding clear_keys
  field-clear_keys (err e) w none_listed = refl
  field-clear_keys (ok []) w none_listed = refl
  field-clear_keys (ok (k ∷ ks)) w none_listed =
      apart_laws.field-del (k ∷ ks) _ g w.store (none_listed (k ∷ ks) refl)

  not_both : (b : Bool) → b ≡ true → b ≡ false → ⊥
  not_both b p q = cc

  -- Clearing the cache of jobs.
  pub field-clear_all_job_caches : (w : World) → field_of (clear_all_job_caches w).1 ≡ field_of w
  unfolding clear_all_job_caches
  field-clear_all_job_caches w =
      field-clear_keys _ _ (λ ks answered m.
        not_both _ (apart_laws.keys_sound (bytes "job:") _ ks w.store refl answered m)
          limit_key_unlisted)
      ∙ apart_laws.field-keys job_pattern _ g w.store
