-- ===== src/Auth/Login.antt =====
-- app/services/auth_service.py, `authenticate_user`.
use fastapi.Prelude.{
  ℕ, String, Option, none, some, Bool, true, false, not, ltb, is_some, ◌&&◌, ◌||◌, if◌then◌else◌,
}
use fastapi.Exec.{
  Exec, pure, try_repository, ◌>>=◌, ◌>>◌, ServiceResult, success, failure, auth_account_locked,
  auth_invalid_credentials, auth_inactive_user, auth_email_not_verified, common_internal_error,
}
use fastapi.Db.{Session, User, clock}
use fastapi.Auth.Users.{get_user_by_username, register_failed_login, clear_failed_login_state}
use fastapi.Auth.Tokens.{Crypto, SecuritySettings, TokenPair, create_token_pair}

-- `locked_until and locked_until > now`
abbrev pub is_locked : ℕ → Option ℕ → Bool
is_locked now none = false
is_locked now (some t) = ltb now t

module _ (db : Session) (crypto : Crypto db.State) (settings : SecuritySettings) where
  open db use {State}

  -- After `register_failed_login`, `none` where that raised `RepositoryError`.
  unfoldable pub answer_failure : ℕ → Option User → Exec State (ServiceResult TokenPair)
  answer_failure now none = pure (failure common_internal_error)
  answer_failure now (some user) =
      if is_locked now user.locked_until
      then pure (failure auth_account_locked)
      else pure (failure auth_invalid_credentials)

  -- A wrong password for a known user.
  unfoldable pub refuse : ℕ → User → Exec State (ServiceResult TokenPair)
  refuse now user =
      if settings.account_lockout_enabled
      then (do
        registered ←
            try_repository
              (do
                counted ←
                    register_failed_login db user settings.account_lockout_max_attempts
                      settings.account_lockout
                pure (some counted))
              (pure none)
        answer_failure now registered)
      else pure (failure auth_invalid_credentials)

  unfoldable pub grant_tokens : User → Exec State (ServiceResult TokenPair)
  grant_tokens user = do pair ← create_token_pair db crypto settings user; pure (success pair)

  -- `false` where `clear_failed_login_state` raised `RepositoryError`.
  abbrev pub grant_if_cleared : User → Bool → Exec State (ServiceResult TokenPair)
  grant_if_cleared user true = grant_tokens user
  grant_if_cleared user false = pure (failure common_internal_error)

  -- The right password.
  unfoldable pub sign_in : User → Exec State (ServiceResult TokenPair)
  sign_in user =
      if not user.is_active
      then pure (failure auth_inactive_user)
      else if settings.require_verified_email_for_login && not user.email_verified
      then pure (failure auth_email_not_verified)
      else if ltb 0 user.failed_login_attempts || is_some user.locked_until
      then (do
        cleared ← try_repository (do clear_failed_login_state db user; pure true) (pure false)
        grant_if_cleared user cleared)
      else grant_tokens user

  unfoldable pub authenticate_found :
      ℕ → String → Option User → Exec State (ServiceResult TokenPair)
  authenticate_found now password none = pure (failure auth_invalid_credentials)
  authenticate_found now password (some user) =
      if is_locked now user.locked_until
      then pure (failure auth_account_locked)
      else if crypto.check_password password user.hashed_password
      then sign_in user
      else refuse now user

  unfoldable pub authenticate_user : String → String → Exec State (ServiceResult TokenPair)
  authenticate_user username password = do
    user ← get_user_by_username db username
    now ← clock db
    authenticate_found now password user
