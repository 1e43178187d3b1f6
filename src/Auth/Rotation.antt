-- ===== src/Auth/Rotation.antt =====
-- app/services/auth_service.py, `refresh_tokens`, `logout_refresh_token`, `cleanup_revoked_tokens`.
use fastapi.Prelude.{ℕ, String, Option, none, some, str_eq, if◌then◌else◌}
use fastapi.Exec.{
  Exec, pure, raise, other, try_repository, ◌>>=◌, ◌>>◌, ServiceResult, success, failure,
  auth_invalid_token, auth_refresh_reused, common_internal_error,
}
use fastapi.Db.{Session, User, clock}
use fastapi.Auth.Users.{get_user_by_id}
use fastapi.Auth.Tokens.{
  Crypto, Claims, SecuritySettings, TokenPair, create_token_pair, is_token_revoked, revoke_token,
  delete_expired_tokens,
}

-- How the revocation in its `try` block ended.
pub data Revocation : Type 0 where
  revoked not_stored not_decoded : Revocation

module _ (db : Session) (crypto : Crypto db.State) where
  open db use {State}

  -- `decode_token`, `none` where it raises.
  abbrev pub decode_token : String → Exec State (Option Claims)
  decode_token token = do now ← clock db; pure (crypto.decode now token)

  -- The `exp` of `decode_token_payload`, `none` where that or the key lookup raises.
  abbrev pub expiry_of : Option Claims → Option ℕ
  expiry_of none = none
  expiry_of (some claims) = claims.exp

  abbrev pub revoke_until : Claims → Option ℕ → Exec State Revocation
  revoke_until claims none = pure not_decoded
  revoke_until claims (some expires_at) =
      try_repository (do revoke_token db claims.jti claims.token_type expires_at; pure revoked)
        (pure not_stored)

  -- The second `try` block: the payload is decoded again for its expiry, then the token is revoked.
  unfoldable pub revoke_claims : Claims → String → Exec State Revocation
  revoke_claims claims token = do
    payload ← decode_token token
    revoke_until claims (expiry_of payload)

  abbrev pub logout_answer : Revocation → Exec State (ServiceResult (Unit {0}))
  logout_answer revoked = pure (success tt)
  logout_answer not_stored = pure (failure common_internal_error)
  logout_answer not_decoded = pure (failure auth_invalid_token)

  unfoldable pub logout_claims : String → Option Claims → Exec State (ServiceResult (Unit {0}))
  logout_claims token none = pure (failure auth_invalid_token)
  logout_claims token (some claims) =
      if str_eq claims.token_type "refresh"
      then (do
        used ← is_token_revoked db claims.jti
        if used
            then pure (failure auth_refresh_reused)
            else do outcome ← revoke_claims claims token; logout_answer outcome)
      else pure (failure auth_invalid_token)

  unfoldable pub logout_refresh_token : String → Exec State (ServiceResult (Unit {0}))
  logout_refresh_token token = do claims ← decode_token token; logout_claims token claims

  module _ (settings : SecuritySettings) where
    abbrev pub refresh_answer : User → Revocation → Exec State (ServiceResult TokenPair)
    refresh_answer user revoked = do
      pair ← create_token_pair db crypto settings user
      pure (success pair)
    refresh_answer user not_stored = pure (failure common_internal_error)
    refresh_answer user not_decoded = pure (failure auth_invalid_token)

    -- `not user or not user.is_active`
    unfoldable pub rotate : String → Claims → Option User → Exec State (ServiceResult TokenPair)
    rotate token claims none = pure (failure auth_invalid_token)
    rotate token claims (some user) =
        if user.is_active
        then (do outcome ← revoke_claims claims token; refresh_answer user outcome)
        else pure (failure auth_invalid_token)

    -- `get_user_by_id(session, int(token_data.sub))`
    unfoldable pub rotate_for : String → Claims → Option ℕ → Exec State (ServiceResult TokenPair)
    rotate_for token claims none = raise other
    rotate_for token claims (some user_id) = do
      user ← get_user_by_id db user_id
      rotate token claims user

    unfoldable pub refresh_claims : String → Option Claims → Exec State (ServiceResult TokenPair)
    refresh_claims token none = pure (failure auth_invalid_token)
    refresh_claims token (some claims) =
        if str_eq claims.token_type "refresh"
        then (do
          used ← is_token_revoked db claims.jti
          if used
              then pure (failure auth_refresh_reused)
              else rotate_for token claims claims.subject)
        else pure (failure auth_invalid_token)

    unfoldable pub refresh_tokens : String → Exec State (ServiceResult TokenPair)
    refresh_tokens token = do claims ← decode_token token; refresh_claims token claims

  unfoldable pub cleanup_revoked_tokens : Exec State (ServiceResult ℕ)
  cleanup_revoked_tokens =
      try_repository (do deleted ← delete_expired_tokens db; pure (success deleted))
        (pure (failure common_internal_error))
