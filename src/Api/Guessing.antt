-- ===== src/Api/Guessing.antt =====
-- Signing in through the limiter: how often a password can be tried.
use fastapi.Prelude.{
  ◌⊎◌, ℕ, String, ◌≡◌, Bool, true, false, List, [], ◌∷◌, ◌++◌, ltb, length, filter,
}
use fastapi.Exec.{
  Outcome, returned, raised, ServiceResult, success, failure, ErrorCode, auth_invalid_credentials,
  auth_account_locked, auth_email_not_verified, auth_inactive_user, common_internal_error,
}
use fastapi.Db.{Session}
use fastapi.Auth.Tokens.{Crypto, SecuritySettings, TokenPair}
use fastapi.RateLimit.Memory.{Attempts, queue_of}
use fastapi.RateLimit.Window.{in_window}
use fastapi.RateLimit.Requests.{RateLimitSettings}
use fastapi.Api.Errors.{Reply, replied, app_exception, too_many}

abbrev pub is_reply : {A : Type 0} → Outcome (Reply A) → Bool
is_reply (returned (replied _)) = true
is_reply _ = false

abbrev pub is_too_many : {A : Type 0} → Outcome (Reply A) → Bool
is_too_many (returned (too_many _)) = true
is_too_many _ = false

-- The status that a failure of `authenticate_user` is answered with.
abbrev pub HasStatus : ErrorCode → ℕ → Type 0
HasStatus auth_invalid_credentials n = n ≡ 401
HasStatus auth_account_locked n = n ≡ 423
HasStatus auth_email_not_verified n = n ≡ 403
HasStatus auth_inactive_user n = n ≡ 403
HasStatus common_internal_error n = n ≡ 500
HasStatus _ n = Unit

module _ (db : Session) (crypto : Crypto db.State) (settings : SecuritySettings)
    (limits : RateLimitSettings) (key : String) where
  open db use {State}
  open limits use {enabled, login_max_attempts, login_window_seconds}

  -- The attempts after a failure at the time `later`.
  abbrev pub with_failure : List ℕ → ℕ → List ℕ
  with_failure live later = filter (in_window later login_window_seconds) live ++ later ∷ []

  -- A failure is answered with its code and the status of that, or, where the attempts have now
  -- reached the limit, with the delay of the limiter.
  abbrev pub FailsWith :
      ℕ → List ℕ → ℕ → ErrorCode → State → Outcome (Reply TokenPair) × (Attempts × State) → Type 0
  FailsWith status live later code s1 (r, (d', s')) =
      (s' ≡ s1)
      × (queue_of (d' key) ≡ with_failure live later)
      × (((ltb (length (with_failure live later)) login_max_attempts ≡ true)
            × (r ≡ returned (app_exception status code)))
          ⊎ ((ltb (length (with_failure live later)) login_max_attempts ≡ false)
              × (is_too_many r ≡ true)))

  abbrev pub Fails :
      List ℕ → ℕ → ErrorCode → State → Outcome (Reply TokenPair) × (Attempts × State) → Type 0
  Fails live later code s1 o =
      (status : ℕ) × (HasStatus code status × FailsWith status live later code s1 o)

  -- The attempts of the key that count before the sign-in are `live`; `allowed` tells whether they
  -- are fewer than the limit. The third argument is what the service does if it is asked.
  abbrev pub SignsIn :
      List ℕ
      → ℕ
      → State
      → Bool
      → Outcome (ServiceResult TokenPair) × State
      → Outcome (Reply TokenPair) × (Attempts × State)
      → Type 0
  SignsIn live later s false _ (r, (d', s')) =
      (is_reply r ≡ false) × (s' ≡ s) × (queue_of (d' key) ≡ live)
  SignsIn live later s true (returned (success t), s1) (r, (d', s')) =
      (r ≡ returned (replied t)) × (s' ≡ s1) × (queue_of (d' key) ≡ [])
  SignsIn live later s true (returned (failure code), s1) o = Fails live later code s1 o
  SignsIn live later s true (raised e, s1) (r, (d', s')) =
      (r ≡ raised e) × (s' ≡ s1) × (queue_of (d' key) ≡ live)
