-- ===== src/Auth/Confirm.antt =====
-- app/services/auth_service.py: the messages that verify an email or reset a password, and the
-- confirmations by the tokens in them.
use fastapi.Prelude.{ℕ, String, Option, none, some, Bool, true, false, str_eq, if◌then◌else◌}
use fastapi.Prelude.Text.{Unicode}
use fastapi.Exec.{
  Exec, pure, raise, other, try_except, ◌>>=◌, ◌>>◌, ServiceResult, success, failure,
  auth_invalid_token, security_weak_password, common_internal_error,
}
use fastapi.Db.{Session, User, clock, write, perform, roll_back, commit_call, refresh_call}
use fastapi.Auth.Users.{get_user_by_id, get_user_by_email, update_user}
use fastapi.Auth.Tokens.{Crypto, Claims}
use fastapi.Auth.Rotation.{decode_token}
use fastapi.Auth.Password.{PasswordPolicy, PasswordFault, validate_password_policy}
use fastapi.Auth.Links.{
  LinkSettings, build_email_verification_url, build_password_reset_url,
  create_email_verification_token, create_password_reset_token,
}
use fastapi.Outbox.Events.{
  create_outbox_event, build_verification_email_outbox_event,
  build_password_reset_email_outbox_event,
}

-- The texts that the methods succeed with.
pub data Notice : Type 0 where
  already_verified verification_queued reset_queued password_was_reset email_was_verified : Notice

unfoldable pub verify_email : User → User
verify_email u = record u { email_verified = true }

unfoldable pub mark_verification_sent : ℕ → User → User
mark_verification_sent now u = record u { email_verification_sent_at = some now }

unfoldable pub reset_password : String → User → User
reset_password hashed u = record u {
  hashed_password = hashed;
  failed_login_attempts = 0;
  locked_until = none;
}

module _ (db : Session) (crypto : Crypto db.State) where
  open db use {State}

  abbrev pub new_uuid : Exec State String
  new_uuid s = pure (crypto.uuid s) s

  abbrev pub fail_after_rollback : {A : Type 0} → Exec State (ServiceResult A)
  fail_after_rollback = do roll_back db; pure (failure common_internal_error)

  module _ (links : LinkSettings) where
    unfoldable pub queue_verification : User → Exec State (ServiceResult Notice)
    queue_verification user = do
      token ← create_email_verification_token links db crypto user
      task_id ← new_uuid
      now ← clock db
      try_except
          (do
            create_outbox_event db (
                build_verification_email_outbox_event task_id user.id user.username user.email
                  (build_email_verification_url links token) "api.auth.verify_email" now)
            sent_at ← clock db
            write db (update_user user.id (mark_verification_sent sent_at))
            perform db commit_call
            perform db refresh_call
            pure (success verification_queued))
          fail_after_rollback

    abbrev pub queue_unless : Bool → User → Exec State (ServiceResult Notice)
    queue_unless true user = pure (success already_verified)
    queue_unless false user = queue_verification user

    unfoldable pub request_email_verification : User → Exec State (ServiceResult Notice)
    request_email_verification user = queue_unless user.email_verified user

    -- An unknown address is answered as a known one.
    unfoldable pub queue_reset : Option User → Exec State (ServiceResult Notice)
    queue_reset none = pure (success reset_queued)
    queue_reset (some user) = do
      token ← create_password_reset_token links db crypto user
      task_id ← new_uuid
      now ← clock db
      try_except
          (do
            create_outbox_event db (
                build_password_reset_email_outbox_event task_id user.id user.username user.email
                  (build_password_reset_url links token) "api.auth.password_reset" now)
            perform db commit_call
            pure (success reset_queued))
          fail_after_rollback

    unfoldable pub request_password_reset : String → Exec State (ServiceResult Notice)
    request_password_reset email = do user ← get_user_by_email db email; queue_reset user

  -- Both confirmations begin alike: `k` is what they do with the user that the token names.
  module _ (kind : String) (k : User → Exec State (ServiceResult Notice)) where
    abbrev pub with_user : Claims → Option User → Exec State (ServiceResult Notice)
    with_user claims none = pure (failure auth_invalid_token)
    with_user claims (some user) =
        if str_eq user.username claims.username then k user else pure (failure auth_invalid_token)

    abbrev pub with_subject : Claims → Option ℕ → Exec State (ServiceResult Notice)
    with_subject claims none = raise other
    with_subject claims (some user_id) = do user ← get_user_by_id db user_id; with_user claims user

    unfoldable pub with_claims : Option Claims → Exec State (ServiceResult Notice)
    with_claims none = pure (failure auth_invalid_token)
    with_claims (some claims) =
        if str_eq claims.token_type kind
        then with_subject claims claims.subject
        else pure (failure auth_invalid_token)

    unfoldable pub with_token_user : String → Exec State (ServiceResult Notice)
    with_token_user token = do claims ← decode_token db crypto token; with_claims claims

  unfoldable pub store_password : String → User → Exec State (ServiceResult Notice)
  store_password new_password user s =
      let hashed = crypto.hash_password s new_password in
      try_except
        (do
          write db (update_user user.id (reset_password hashed))
          perform db commit_call
          perform db refresh_call
          pure (success password_was_reset))
        fail_after_rollback s

  abbrev pub store_if_strong :
      Option PasswordFault → String → User → Exec State (ServiceResult Notice)
  store_if_strong none new_password user = store_password new_password user
  store_if_strong (some _) new_password user = pure (failure security_weak_password)

  unfoldable pub confirm_password_reset :
      Unicode → PasswordPolicy → String → String → Exec State (ServiceResult Notice)
  confirm_password_reset u policy token new_password =
      with_token_user "password_reset"
        (λ user.
          store_if_strong (validate_password_policy u policy new_password user.username user.email)
            new_password user)
        token

  abbrev pub store_verified : Bool → User → Exec State (ServiceResult Notice)
  store_verified true user = pure (success already_verified)
  store_verified false user =
      try_except
        (do
          write db (update_user user.id verify_email)
          perform db commit_call
          perform db refresh_call
          pure (success email_was_verified))
        fail_after_rollback

  unfoldable pub confirm_email_verification : String → Exec State (ServiceResult Notice)
  confirm_email_verification =
      with_token_user "email_verification" (λ user. store_verified user.email_verified user)
