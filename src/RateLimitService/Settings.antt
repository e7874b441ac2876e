-- ===== src/RateLimitService/Settings.antt =====
-- A limiter that is set up from the environment.
use Prim.Native.Nat.{min}
use parallelis_distributed_e.Base.{
  ℕ, suc, ◌+◌, ◌-◌, ◌<◌, ◌≤◌, ◌≡◌, ◌≢◌, true, not, Str, bytes, str_eq, str_eq→eq, lt_int, add_int,
  sign_bit, word_mod, arith, Bool-cases, inl, inr, ap, ◌∙◌,
}
use parallelis_distributed_e.Model.{unix}
use parallelis_distributed_e.Services.{Services, World, CounterLaws}
use parallelis_distributed_e.Strconv.{format_int}
use parallelis_distributed_e.Config.{Environment}
use parallelis_distributed_e.Config.Numbers.{number_or-format_int}
use parallelis_distributed_e.RateLimitService.{new_rate_limit_service}
use parallelis_distributed_e.RateLimitService.Quota.{
  allowed_count, longest_window, Lapsed, window_quota,
}

enabled_unless_false :
    (env : Environment)
    → env (bytes "RATE_LIMIT_ENABLED") ≢ bytes "false"
    → (new_rate_limit_service env).enabled ≡ true
unfolding new_rate_limit_service
enabled_unless_false env on =
    elim (Bool-cases (str_eq (env (bytes "RATE_LIMIT_ENABLED")) (bytes "false"))) [
      | inl off ↦ absurd (on (str_eq→eq _ _ off))
      | inr other ↦ ap not other
    ]

max_requests_lem :
    (env : Environment) (limit : ℕ)
    → limit < word_mod
    → env (bytes "RATE_LIMIT_MAX_REQUESTS") ≡ format_int limit
    → (new_rate_limit_service env).max_requests ≡ limit
unfolding new_rate_limit_service
max_requests_lem env limit fits e = number_or-format_int 100 limit _ fits e

window_seconds_lem :
    (env : Environment) (window : ℕ)
    → window < word_mod
    → env (bytes "RATE_LIMIT_WINDOW_SECONDS") ≡ format_int window
    → (new_rate_limit_service env).window_seconds ≡ window
unfolding new_rate_limit_service
window_seconds_lem env window fits e = number_or-format_int 60 window _ fits e

module _ ⦃S : Services⦄ (counters : CounterLaws S.cache) (env : Environment) (client_id : Str) where
  -- While Redis is up: let the environment of `NewRateLimitService` hold a limit below 2 ^ 63 and a
  -- window of at most 9223372026 seconds, as Go prints integers, and not "false" for the limiter. Let no count be kept
  -- for the client, or its window be over at the first of 1 + n requests in a row, and let the
  -- clock be within that number of seconds of it at the readings of the others. Then exactly
  -- 1 + min n (limit - 1) of the requests pass.
  pub configured_quota :
      (n limit window : ℕ) (w : World)
      → env (bytes "RATE_LIMIT_ENABLED") ≢ bytes "false"
      → env (bytes "RATE_LIMIT_MAX_REQUESTS") ≡ format_int limit
      → env (bytes "RATE_LIMIT_WINDOW_SECONDS") ≡ format_int window
      → limit < sign_bit
      → window ≤ longest_window
      → 1 + n < sign_bit
      → Lapsed counters (new_rate_limit_service env) client_id w (unix (w.clock 0))
      → ((i : ℕ) → lt_int (unix (w.clock (suc i))) (add_int (unix (w.clock 0)) window) ≡ true)
      → allowed_count (new_rate_limit_service env) client_id (suc n) w ≡ 1 + min n (limit - 1)
  configured_quota n limit window w on max_text window_text small fits few lapsed live =
      let max = max_requests_lem env limit (omega arith) max_text in
      let seconds = window_seconds_lem env window (omega arith) window_text in
      window_quota counters (new_rate_limit_service env) client_id n w (enabled_unless_false env on)
        (rw max small) (rw seconds fits) few lapsed (λ i. rw seconds (live i))
      ∙ ap (λ m. 1 + min n (m - 1)) max
