-- ===== src/CacheService.antt =====
-- service/CacheService.go: jobs in Redis as JSON, under `job:<id>`.
pub mod Frame
pub mod Coherence
pub mod Clearing
use parallelis_distributed_e.Base.{
  length, ℕ, ◌*◌, ◌==◌, ◌++◌, Option, none, some, [], ◌∷◌, Str, bytes, List, Result, ok, err,
  mul_int, if◌then◌else◌,
}
use parallelis_distributed_e.Model.{Duration, second, Uuid, uuid_nil, Job}
use parallelis_distributed_e.Config.{Environment, number_or}
use parallelis_distributed_e.Strconv.{format_int}
use parallelis_distributed_e.Services.{
  Reply, found, absent, broken, Services, Exec, ◌>>=◌, ◌>>◌, pure, on_cache,
}

-- `CacheService`, without its client.
pub record CacheService : Type 0 where
  pub job_cache_ttl_minutes : ℕ

-- `NewCacheService`
unfoldable pub new_cache_service : Environment → CacheService
new_cache_service env = record {
  job_cache_ttl_minutes = number_or 15 (env (bytes "CACHE_JOB_TTL_MINUTES"));
}

-- `"job:*"`, as `Keys` is given it
abbrev pub job_pattern : Str
job_pattern = bytes "job:*"

-- `time.Duration(n) * time.Minute`
abbrev pub minutes : ℕ → Duration
minutes n = mul_int n (60 * second)

module _ ⦃S : Services⦄ where
  -- `getJobCacheKey`
  unfoldable pub job_cache_key : Uuid → Str
  job_cache_key id = bytes "job:" ++ S.uuid_text id

  -- What `GetJob` makes of the reply: any failure is a miss.
  unfoldable pub decoded : Result Job → Option Job
  decoded (ok job) = some job
  decoded (err e) = none

  unfoldable pub decode_reply : Reply → Option Job
  decode_reply absent = none
  decode_reply (broken e) = none
  decode_reply (found text) = decoded (S.unmarshal text)

  -- `GetJob`
  unfoldable pub get_job : Uuid → Exec (Option Job)
  get_job id = do reply ← on_cache (S.cache.get (job_cache_key id)); pure (decode_reply reply)

  -- `CacheJob` with what `json.Marshal` gives
  unfoldable pub cache_text : CacheService → Uuid → Result Str → Exec (Unit {0})
  cache_text cs id (err e) = pure tt
  cache_text cs id (ok text) = do
    on_cache (S.cache.set (job_cache_key id) text (minutes cs.job_cache_ttl_minutes))
    pure tt

  -- `CacheJob`
  unfoldable pub cache_job : CacheService → Job → Exec (Unit {0})
  cache_job cs job = if job.id == uuid_nil then pure tt else cache_text cs job.id (S.marshal job)

  -- `InvalidateJob`
  unfoldable pub invalidate_job : Uuid → Exec (Unit {0})
  invalidate_job id = do on_cache (S.cache.del (job_cache_key id ∷ [])); pure tt

  -- `UpdateJob`
  unfoldable pub update_job : CacheService → Job → Exec (Unit {0})
  update_job cs job = do invalidate_job job.id; cache_job cs job

  -- `ClearAllJobCaches` with what `Keys` gives
  unfoldable pub clear_keys : Result (List Str) → Exec (Unit {0})
  clear_keys (err e) = pure tt
  clear_keys (ok []) = pure tt
  clear_keys (ok (k ∷ ks)) = do on_cache (S.cache.del (k ∷ ks)); pure tt

  -- `ClearAllJobCaches`
  unfoldable pub clear_all_job_caches : Exec (Unit {0})
  clear_all_job_caches = do keys ← on_cache (S.cache.keys job_pattern); clear_keys keys

  -- `GetCacheInfo` from what `Keys` gives
  unfoldable pub cache_info : Result (List Str) → Str
  cache_info (err e) = bytes "Cache info unavailable"
  cache_info (ok ks) = bytes "Cached jobs: " ++ format_int (length ks)

  -- `GetCacheInfo`
  unfoldable pub get_cache_info : Exec Str
  get_cache_info = do ks ← on_cache (S.cache.keys job_pattern); pure (cache_info ks)
