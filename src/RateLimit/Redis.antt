-- ===== src/RateLimit/Redis.antt =====
-- app/core/rate_limit.py, `RedisFixedWindowRateLimiter`, on a Redis client that is a parameter. No
-- call raises here: the callers catch nothing, so an exception of the client passes through.
use fastapi.Prelude.{ℕ, String, Option, none, some, true, false, leb, ◌==◌, ◌||◌, if◌then◌else◌}
use fastapi.Prelude.Int.{ℤ, pos, ltb_ℤ, pos_part}
use fastapi.RateLimit.Memory.{RateLimitDecision}

-- The calls of the client: `get`, `ttl`, the pipeline of `incr` and `ttl`, `expire` and `delete`. A
-- time to live is below 0 for a key without one.
pub record RedisClient (S : Type 0) : Type 0 where
  pub get : String → S → Option ℕ × S
  pub ttl : String → S → ℤ × S
  pub incr_ttl : String → S → (ℕ × ℤ) × S
  pub expire : String → ℕ → S → S
  pub delete : String → S → S

-- `ttl if ttl > 0 else window_seconds`
abbrev pub wait_of : ℕ → ℤ → ℕ
wait_of window ttl = if ltb_ℤ (pos 0) ttl then pos_part ttl else window

abbrev pub count_of : Option ℕ → ℕ
count_of none = 0
count_of (some n) = n

abbrev pub allow : RateLimitDecision
allow = record { allowed = true; retry_after_seconds = 0 }

abbrev pub refuse_for : ℕ → RateLimitDecision
refuse_for seconds = record { allowed = false; retry_after_seconds = seconds }

module _ {S : Type 0} (client : RedisClient S) where
  open client use {get, ttl, incr_ttl, expire, delete}

  unfoldable pub check : String → ℕ → ℕ → S → RateLimitDecision × S
  check key max_attempts window s =
      let (raw_count, s1) = get key s in
      if leb max_attempts (count_of raw_count)
      then (let (left, s2) = ttl key s1 in (refuse_for (wait_of window left), s2))
      else (allow, s1)

  unfoldable pub hit : String → ℕ → ℕ → S → RateLimitDecision × S
  hit key max_attempts window s =
      let ((count, left), s1) = incr_ttl key s in
      let restarts = (count == 1) || ltb_ℤ left (pos 0) in
      let s2 = if restarts then expire key window s1 else s1 in
      let left' = if restarts then pos window else left in
      if leb max_attempts count then (refuse_for (wait_of window left'), s2) else (allow, s2)

  unfoldable pub reset : String → S → S
  reset key s = delete key s
