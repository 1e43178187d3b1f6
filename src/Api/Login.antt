-- ===== src/Api/Login.antt =====
-- app/api/v1/auth.py: the endpoints that sign in, refresh and log out, behind the rate limiter. The
-- attempts of the limiter stand beside the session; `now` and `later` are the times at which the
-- limiter is asked, and `key` what it counts by.
use fastapi.Prelude.{ℕ, String}
use fastapi.Exec.{Exec, pure, raise, other, returned, ◌>>=◌, ServiceResult, is_ok}
use fastapi.Db.{Session}
use fastapi.Auth.Tokens.{Crypto, SecuritySettings, TokenPair}
use fastapi.Auth.Login.{authenticate_user}
use fastapi.Auth.Rotation.{refresh_tokens, logout_refresh_token}
use fastapi.RateLimit.Memory.{Attempts}
use fastapi.RateLimit.Requests.{
  RateLimitSettings, Verdict, admitted, index_error, too_many_requests, check_login_rate_limit,
  record_login_attempt, check_token_rate_limit,
}
use fastapi.Api.Errors.{Reply, too_many, unwrap_result}

module _ {S : Type 0} where
  abbrev pub ask_limiter : (Attempts → Verdict × Attempts) → Exec (Attempts × S) Verdict
  ask_limiter f (d, s) = let (v, d') = f d in (returned v, (d', s))

  abbrev pub call_service : {A : Type 0} → Exec S A → Exec (Attempts × S) A
  call_service m (d, s) = let (r, s') = m s in (r, (d, s'))

-- `raise rate_limit_error`, where there is one.
abbrev pub unless_refused : {X A : Type 0} → Verdict → Exec X (Reply A) → Exec X (Reply A)
unless_refused admitted rest = rest
unless_refused index_error rest = raise other
unless_refused (too_many_requests n) rest = pure (too_many n)

module _ (db : Session) (crypto : Crypto db.State) (settings : SecuritySettings)
    (limits : RateLimitSettings) where
  open db use {State}

  abbrev pub after_sign_in :
      String → ℕ → ServiceResult TokenPair → Exec (Attempts × State) (Reply TokenPair)
  after_sign_in key later result = do
    refused ← ask_limiter (record_login_attempt limits key (is_ok result) later)
    unless_refused refused (pure (unwrap_result result))

  unfoldable pub login :
      String → ℕ → ℕ → String → String → Exec (Attempts × State) (Reply TokenPair)
  login key now later username password = do
    refused ← ask_limiter (check_login_rate_limit limits key now)
    unless_refused refused (do
      result ← call_service (authenticate_user db crypto settings username password)
      after_sign_in key later result)

  unfoldable pub refresh_access_token :
      String → ℕ → String → Exec (Attempts × State) (Reply TokenPair)
  refresh_access_token key now token = do
    refused ← ask_limiter (check_token_rate_limit limits key now)
    unless_refused refused (do
      result ← call_service (refresh_tokens db crypto settings token)
      pure (unwrap_result result))

  unfoldable pub logout : String → ℕ → String → Exec (Attempts × State) (Reply (Unit {0}))
  logout key now token = do
    refused ← ask_limiter (check_token_rate_limit limits key now)
    unless_refused refused (do
      result ← call_service (logout_refresh_token db crypto token)
      pure (unwrap_result result))
