-- ===== src/RateLimit/Requests.antt =====
-- app/core/rate_limit.py, the checks that the sign-in and token endpoints make. The keys are given.
use fastapi.Prelude.{ℕ, String, Option, none, some, Bool, if◌then◌else◌}
use fastapi.RateLimit.Memory.{Attempts, RateLimitDecision, check, hit, reset}

pub record RateLimitSettings : Type 0 where
  pub enabled : Bool
  pub login_max_attempts : ℕ
  pub login_window_seconds : ℕ
  pub token_max_attempts : ℕ
  pub token_window_seconds : ℕ

-- What a check ends in: no exception, `TooManyRequestsException` with its delay, or `IndexError`.
pub data Verdict : Type 0 where
  admitted index_error : Verdict
  too_many_requests : ℕ → Verdict

abbrev pub verdict_of : Option RateLimitDecision → Verdict
verdict_of none = index_error
verdict_of (some d) = if d.allowed then admitted else too_many_requests d.retry_after_seconds

module _ (settings : RateLimitSettings) where
  open settings use {
    enabled, login_max_attempts, login_window_seconds, token_max_attempts, token_window_seconds,
  }

  unfoldable pub check_login_rate_limit : String → ℕ → Attempts → Verdict × Attempts
  check_login_rate_limit key now d =
      if enabled
      then (let (r, d') = check key login_max_attempts login_window_seconds now d in
          (verdict_of r, d'))
      else (admitted, d)

  unfoldable pub record_login_attempt : String → Bool → ℕ → Attempts → Verdict × Attempts
  record_login_attempt key ok now d =
      if enabled
      then (if ok
          then (admitted, reset key d)
          else (let (r, d') = hit key login_max_attempts login_window_seconds now d in
              (verdict_of r, d')))
      else (admitted, d)

  unfoldable pub check_token_rate_limit : String → ℕ → Attempts → Verdict × Attempts
  check_token_rate_limit key now d =
      if enabled
      then (let (r, d') = hit key token_max_attempts token_window_seconds now d in
          (verdict_of r, d'))
      else (admitted, d)
