-- ===== src/Auth/Tokens.antt =====
-- app/db/repositories/revoked_token.py, and the tokens of app/core/security.py. The libraries for
-- passwords and for signed tokens are parameters.
use fastapi.Prelude.{
  ℕ, String, Option, some, Bool, [], ◌∷◌, ◌++◌, ◌+◌, ◌*◌, ◌-◌, str_eq, ltb, not, is_some, find,
  filter, length,
}
use fastapi.Exec.{Exec, pure, raise, repository_error, try_except, ◌>>=◌, ◌>>◌}
use fastapi.Db.{
  Session, Tables, User, RevokedToken, minutes, select, write, perform, roll_back, clock,
  commit_call,
}
use fastapi.Auth.Users.{save}

-- The claims that the code reads: `subject` is `int(sub)`, `none` where that raises; `exp` is
-- `none` in a payload without it.
pub record Claims : Type 0 where
  pub subject : Option ℕ
  pub username : String
  pub token_type : String
  pub jti : String
  pub exp : Option ℕ

-- `bcrypt`, `jwt` and `uuid4`. `decode` is given the time, and is `none` where decoding raises, a
-- token that has expired included.
pub record Crypto (S : Type 0) : Type 0 where
  pub check_password : String → String → Bool
  pub hash_password : S → String → String
  pub encode : Claims → String
  pub decode : ℕ → String → Option Claims
  pub uuid : S → String

pub record SecuritySettings : Type 0 where
  pub access_token_expire_minutes : ℕ
  pub refresh_token_expire_minutes : ℕ
  pub require_verified_email_for_login : Bool
  pub account_lockout_enabled : Bool
  pub account_lockout_max_attempts : ℕ
  pub account_lockout : ℕ

pub record TokenPair : Type 0 where
  pub access_token : String
  pub refresh_token : String
  pub access_expires_in : ℕ
  pub refresh_expires_in : ℕ

unfoldable pub revoked_row : String → Tables → Option RevokedToken
revoked_row jti t = find (λ r. str_eq r.jti jti) t.revoked_tokens

unfoldable pub insert_revoked : RevokedToken → Tables → Tables
insert_revoked r t = record t { revoked_tokens = t.revoked_tokens ++ r ∷ [] }

unfoldable pub delete_revoked_before : ℕ → Tables → Tables
delete_revoked_before cutoff t = record t {
  revoked_tokens = filter (λ r. not (ltb r.expires_at cutoff)) t.revoked_tokens;
}

module _ (db : Session) where
  open db use {State}

  unfoldable pub is_token_revoked : String → Exec State Bool
  is_token_revoked jti = select db (λ t. is_some (revoked_row jti t))

  unfoldable pub revoke_token : String → String → ℕ → Exec State RevokedToken
  revoke_token jti token_type expires_at =
      let row : RevokedToken = record {
        jti = jti;
        token_type = token_type;
        expires_at = expires_at;
      } in
      save db (insert_revoked row) row

  -- The `DELETE` is one query that changes the rows; the result is the number of rows deleted.
  unfoldable pub delete_expired_tokens : Exec State ℕ
  delete_expired_tokens = do
    cutoff ← clock db
    try_except
        (do
          before ← select db (λ t. length t.revoked_tokens)
          write db (delete_revoked_before cutoff)
          after ← select db (λ t. length t.revoked_tokens)
          perform db commit_call
          pure (before - after))
        (do roll_back db; raise repository_error)

  module _ (crypto : Crypto State) where
    unfoldable pub create_token : String → Option ℕ → String → ℕ → Exec State String
    create_token token_type subject username expires_minutes = do
      issued_at ← clock db
      jti ← (λ s. pure (crypto.uuid s) s)
      pure (
          crypto.encode (record {
            subject = subject;
            username = username;
            token_type = token_type;
            jti = jti;
            exp = some (issued_at + minutes expires_minutes);
          }))

    -- The `TokenPair` of a sign-in and of a refresh.
    unfoldable pub create_token_pair : SecuritySettings → User → Exec State TokenPair
    create_token_pair settings user = do
      access ← create_token "access" user.id user.username settings.access_token_expire_minutes
      refresh ← create_token "refresh" user.id user.username settings.refresh_token_expire_minutes
      pure (record {
        access_token = access;
        refresh_token = refresh;
        access_expires_in = settings.access_token_expire_minutes * 60;
        refresh_expires_in = settings.refresh_token_expire_minutes * 60;
      })
