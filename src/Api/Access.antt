-- ===== src/Api/Access.antt =====
-- app/api/deps.py: the user of a request, and the guard of the operations endpoints.
use fastapi.Prelude.{ℕ, String, Option, none, some, Bool, not, str_eq, if◌then◌else◌}
use fastapi.Exec.{Exec, pure, ◌>>=◌}
use fastapi.Db.{Session, User, is_ops_admin}
use fastapi.Auth.Users.{get_user_by_id}
use fastapi.Auth.Tokens.{Crypto, Claims}
use fastapi.Auth.Rotation.{decode_token}

-- The user is returned, or `UnauthorizedException` or `ForbiddenException` is raised.
pub data Access : Type 0 where
  granted : User → Access
  unauthorized forbidden : Access

abbrev pub access_user : Option User → Access
access_user none = unauthorized
access_user (some user) = if not user.is_active then forbidden else granted user

module _ (db : Session) (crypto : Crypto db.State) where
  open db use {State}

  -- `none`: the subject is not a number, `int` raises `ValueError`.
  abbrev pub access_subject : Option ℕ → Exec State Access
  access_subject none = pure unauthorized
  access_subject (some user_id) = do user ← get_user_by_id db user_id; pure (access_user user)

  unfoldable pub access_claims : Option Claims → Exec State Access
  access_claims none = pure unauthorized
  access_claims (some claims) =
      if str_eq claims.token_type "access" then access_subject claims.subject else pure unauthorized

  unfoldable pub get_current_user : String → Exec State Access
  get_current_user token = do claims ← decode_token db crypto token; access_claims claims

  -- The body of `get_operations_user`, behind `get_current_user`; `enabled` is the setting.
  abbrev pub operations_access : Bool → Access → Access
  operations_access enabled (granted user) =
      if not enabled then forbidden else if not (is_ops_admin user) then forbidden else granted user
  operations_access enabled unauthorized = unauthorized
  operations_access enabled forbidden = forbidden

  unfoldable pub get_operations_user : Bool → String → Exec State Access
  get_operations_user enabled token = do
    access ← get_current_user token
    pure (operations_access enabled access)
