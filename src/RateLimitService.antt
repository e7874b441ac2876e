-- ===== src/RateLimitService.antt =====
-- service/RateLimitService.go: a counter with a reset time for each client, in a Redis hash.
pub mod Settings
pub mod Quota
pub mod Refusal
pub mod Remaining
pub mod Race
pub mod Isolation
use parallelis_distributed_e.Base.{
  ℕ, ◌++◌, str_eq, not, Bool, true, false, List, [], ◌∷◌, Str, bytes, Result, ok, err, add_int,
  sub_int, lt_int, if◌then◌else◌,
}
use parallelis_distributed_e.Model.{seconds, unix}
use parallelis_distributed_e.Config.{Environment, number_or}
use parallelis_distributed_e.Services.{
  PipelineCommand, hset, expire, Services, Exec, ◌>>=◌, ◌>>◌, pure, now, on_cache,
}

-- `RateLimitService`, without its client.
pub record RateLimitService : Type 0 where
  pub enabled : Bool
  pub max_requests : ℕ
  pub window_seconds : ℕ

-- `NewRateLimitService`
unfoldable pub new_rate_limit_service : Environment → RateLimitService
new_rate_limit_service env = record {
  enabled = not (str_eq (env (bytes "RATE_LIMIT_ENABLED")) (bytes "false"));
  max_requests = number_or 100 (env (bytes "RATE_LIMIT_MAX_REQUESTS"));
  window_seconds = number_or 60 (env (bytes "RATE_LIMIT_WINDOW_SECONDS"));
}

-- `getRateLimitKey`
unfoldable pub rate_limit_key : Str → Str
rate_limit_key client_id = bytes "rate_limit:" ++ client_id

abbrev pub count_field : Str
count_field = bytes "count"

abbrev pub reset_field : Str
reset_field = bytes "resetTime"

-- What the two replies say of the bucket at a time, as `IsAllowed` and `GetRemainingRequests` test
-- it: `idle` if a reply failed or the window is over.
pub data Bucket : Type 0 where
  idle : Bucket
  active : (count reset : ℕ) → Bucket

unfoldable pub read_bucket : ℕ → Result ℕ → Result ℕ → Bucket
read_bucket at (ok count) (ok reset) = if lt_int at reset then active count reset else idle
read_bucket at (ok count) (err e) = idle
read_bucket at (err e) reset = idle

-- The commands of the pipeline that starts a bucket.
unfoldable pub start_commands : RateLimitService → Str → ℕ → List PipelineCommand
start_commands s key at =
    hset key count_field 1
    ∷ hset key reset_field (add_int at s.window_seconds)
    ∷ expire key (seconds (add_int s.window_seconds 10))
    ∷ []

-- The number that `GetRemainingRequests` computes from the bucket.
unfoldable pub remaining : RateLimitService → Bucket → ℕ
remaining s idle = s.max_requests
remaining s (active count reset) =
    let left = sub_int s.max_requests count in if lt_int left 0 then 0 else left

-- `GetSecondsUntilReset` from the reply
unfoldable pub until_reset : ℕ → Result ℕ → ℕ
until_reset at (err e) = 0
until_reset at (ok reset) = if lt_int at reset then sub_int reset at else 0

module _ ⦃S : Services⦄ where
  -- The two reads that begin `IsAllowed` and `GetRemainingRequests`, at the Unix time of the call.
  unfoldable pub load_bucket : ℕ → Str → Exec Bucket
  load_bucket at key = do
    count ← on_cache (S.cache.hget_int key count_field)
    reset ← on_cache (S.cache.hget_int key reset_field)
    pure (read_bucket at count reset)

  -- What `IsAllowed` does with the bucket; a failed write allows the request.
  unfoldable pub admit : RateLimitService → Str → ℕ → Bucket → Exec Bool
  admit s key at idle = do on_cache (S.cache.exec (start_commands s key at)); pure true
  admit s key at (active count reset) =
      if lt_int count s.max_requests
      then (do on_cache (S.cache.hincr_by key count_field 1); pure true)
      else pure false

  -- `IsAllowed`
  unfoldable pub is_allowed : RateLimitService → Str → Exec Bool
  is_allowed s client_id =
      if s.enabled
      then (do
        at ← now
        bucket ← load_bucket (unix at) (rate_limit_key client_id)
        admit s (rate_limit_key client_id) (unix at) bucket)
      else pure true

  -- `GetRemainingRequests`
  unfoldable pub get_remaining_requests : RateLimitService → Str → Exec ℕ
  get_remaining_requests s client_id =
      if s.enabled
      then (do
        at ← now
        bucket ← load_bucket (unix at) (rate_limit_key client_id)
        pure (remaining s bucket))
      else pure s.max_requests

  -- `GetSecondsUntilReset`
  unfoldable pub get_seconds_until_reset : RateLimitService → Str → Exec ℕ
  get_seconds_until_reset s client_id =
      if s.enabled
      then (do
        at ← now
        reset ← on_cache (S.cache.hget_int (rate_limit_key client_id) reset_field)
        pure (until_reset (unix at) reset))
      else pure 0

  -- `ResetRateLimit`
  unfoldable pub reset_rate_limit : Str → Exec (Unit {0})
  reset_rate_limit client_id = do on_cache (S.cache.del (rate_limit_key client_id ∷ [])); pure tt
