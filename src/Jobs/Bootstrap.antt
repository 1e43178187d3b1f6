-- ===== src/Jobs/Bootstrap.antt =====
-- app/jobs/bootstrap_platform_admin.py, on an open session.
use fastapi.Prelude.{
  ℕ, String, Option, none, some, Bool, true, false, not, ◌||◌, ◌==◌, str_eq, if◌then◌else◌,
}
use fastapi.Prelude.Text.{Unicode, append}
use fastapi.Exec.{Exec, pure, ◌>>=◌, ◌>>◌}
use fastapi.Db.{
  Session, Account, User, write, perform, next_id, commit_call, flush_call, refresh_call,
}
use fastapi.Auth.Users.{get_user_by_username, get_user_by_email, update_user}
use fastapi.Auth.Tokens.{Crypto}
use fastapi.Auth.Password.{PasswordPolicy, PasswordFault, validate_password_policy}
use fastapi.Registration.Create.{insert_account, insert_user}

-- The arguments of the job.
pub record BootstrapRequest : Type 0 where
  pub username : String
  pub email : Option String
  pub password : Option String
  pub role : String
  pub phone : Option String
  pub verify_email : Bool
  pub activate_user : Bool

-- What `ValueError` is raised for.
pub data BootstrapFault : Type 0 where
  unknown_role unprivileged_role different_users missing_credentials other_email : BootstrapFault
  weak_password : PasswordFault → BootstrapFault

pub data Action : Type 0 where
  created promoted : Action

pub data BootstrapResult : Type 0 where
  bootstrapped : Action → String → String → BootstrapResult
  value_error : BootstrapFault → BootstrapResult

-- `_resolve_target_user` returns a user or none, or raises.
pub data Target : Type 0 where
  target : Option User → Target
  conflicting : Target

-- `role in USER_ROLES`
abbrev pub is_user_role : String → Bool
is_user_role role = str_eq role "user" || (str_eq role "ops_admin" || str_eq role "platform_admin")

abbrev pub different_ids : Option ℕ → Option ℕ → Bool
different_ids none none = false
different_ids (some a) (some b) = not (a == b)
different_ids _ _ = true

unfoldable pub matched : Option User → Option User → Target
matched none by_email = target by_email
matched (some a) none = target (some a)
matched (some a) (some b) = if different_ids a.id b.id then conflicting else target (some a)

abbrev pub account_named : ℕ → String → Account
account_named id username = record { id = id; name = append username "-account" }

module _ (db : Session) (crypto : Crypto db.State) (u : Unicode) (policy : PasswordPolicy)
    (request : BootstrapRequest) where
  open db use {State}
  open request use {username, email, password, role, phone, verify_email, activate_user}

  abbrev pub resolve_by : Option String → Option User → Exec State Target
  resolve_by none by_username = pure (target by_username)
  resolve_by (some address) by_username = do
    by_email ← get_user_by_email db address
    pure (matched by_username by_email)

  unfoldable pub resolve_target_user : Exec State Target
  resolve_target_user = do
    by_username ← get_user_by_username db username
    resolve_by email by_username

  abbrev pub new_privileged : ℕ → ℕ → String → String → User
  new_privileged id account_id address hashed = record {
    id = some id;
    account_id = some account_id;
    username = username;
    email = address;
    hashed_password = hashed;
    phone = phone;
    is_active = activate_user;
    email_verified = verify_email;
    role = role;
    email_verification_sent_at = none;
    failed_login_attempts = 0;
    locked_until = none;
  }

  -- `session.commit()` and `session.refresh(user)`, before the end of either branch.
  unfoldable pub finish : Action → String → Exec State BootstrapResult
  finish action name = do
    perform db commit_call
    perform db refresh_call
    pure (bootstrapped action name role)

  unfoldable pub create_privileged : String → String → Exec State BootstrapResult
  create_privileged address new_password = do
    account_id ← next_id db
    write db (insert_account (account_named account_id username))
    perform db flush_call
    hashed ← (λ s. pure (crypto.hash_password s new_password) s)
    id ← next_id db
    write db (insert_user (new_privileged id account_id address hashed))
    finish created username

  abbrev pub create_if_strong : Option PasswordFault → String → String → Exec State BootstrapResult
  create_if_strong none address new_password = create_privileged address new_password
  create_if_strong (some fault) address new_password = pure (value_error (weak_password fault))

  abbrev pub create_with : Option String → Option String → Exec State BootstrapResult
  create_with (some address) (some new_password) =
      create_if_strong (validate_password_policy u policy new_password username address) address
        new_password
  create_with _ _ = pure (value_error missing_credentials)

  -- The assignments to the user that is promoted.
  unfoldable pub promote : Option ℕ → User → User
  promote account_id user = record user {
    account_id = account_id;
    role = role;
    is_active = activate_user || user.is_active;
    email_verified = verify_email || user.email_verified;
  }

  unfoldable pub promote_in : User → Option ℕ → Exec State BootstrapResult
  promote_in user (some account_id) = do
    write db (update_user user.id (promote (some account_id)))
    finish promoted user.username
  promote_in user none = do
    account_id ← next_id db
    write db (insert_account (account_named account_id user.username))
    perform db flush_call
    write db (update_user user.id (promote (some account_id)))
    finish promoted user.username

  abbrev pub promote_matching : Option String → User → Exec State BootstrapResult
  promote_matching none user = promote_in user user.account_id
  promote_matching (some address) user =
      if not (str_eq user.email address)
      then pure (value_error other_email)
      else promote_in user user.account_id

  unfoldable pub bootstrap_target : Target → Exec State BootstrapResult
  bootstrap_target conflicting = pure (value_error different_users)
  bootstrap_target (target none) = create_with email password
  bootstrap_target (target (some user)) = promote_matching email user

  unfoldable pub bootstrap_platform_admin : Exec State BootstrapResult
  bootstrap_platform_admin =
      if not (is_user_role role)
      then pure (value_error unknown_role)
      else if str_eq role "user"
      then pure (value_error unprivileged_role)
      else do found ← resolve_target_user; bootstrap_target found
