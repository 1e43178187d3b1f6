-- ===== src/Registration/Create.antt =====
-- app/services/user_service.py, `create_user`, and `create_user_with_outbox` of
-- app/db/repositories/user.py.
use fastapi.Prelude.{ℕ, String, Option, none, some, Bool, true, false, not, List, [], ◌∷◌, ◌++◌}
use fastapi.Prelude.Text.{Unicode, append}
use fastapi.Exec.{
  Exec, pure, raise, repository_error, try_except, try_repository, ◌>>=◌, ◌>>◌, ServiceResult,
  success, failure, security_weak_password, user_conflict, user_not_found, common_internal_error,
}
use fastapi.Db.{
  Session, Tables, Account, User, OutboxEvent, TaskPayload, user_payload, link_payload,
  alert_payload, write, perform, roll_back, clock, next_id, commit_call, flush_call, refresh_call,
}
use fastapi.Auth.Users.{user_exists, get_user_by_id, update_user}
use fastapi.Auth.Tokens.{Crypto}
use fastapi.Auth.Password.{PasswordPolicy, PasswordFault, validate_password_policy}
use fastapi.Auth.Links.{LinkSettings, build_email_verification_url, create_email_verification_token}
use fastapi.Auth.Confirm.{mark_verification_sent, new_uuid}
use fastapi.Outbox.Events.{
  create_outbox_event, build_user_registered_outbox_event, build_welcome_email_outbox_event,
  build_user_registered_webhook_outbox_event, build_verification_email_outbox_event,
}

pub record UserCreate : Type 0 where
  pub username : String
  pub email : String
  pub password : String
  pub phone : Option String

unfoldable pub insert_account : Account → Tables → Tables
insert_account a t = record t { accounts = t.accounts ++ a ∷ [] }

unfoldable pub insert_user : User → Tables → Tables
insert_user u t = record t { users = t.users ++ u ∷ [] }

-- `UserModel(**user_data, ...)` with the defaults of its columns.
abbrev pub new_user : UserCreate → String → Bool → ℕ → User
new_user user_in hashed_password verified account_id = record {
  id = none;
  account_id = some account_id;
  username = user_in.username;
  email = user_in.email;
  hashed_password = hashed_password;
  phone = user_in.phone;
  is_active = true;
  email_verified = verified;
  role = "user";
  email_verification_sent_at = none;
  failed_login_attempts = 0;
  locked_until = none;
}

-- `event.payload["user_id"] = user.id`, where the payload has no user id.
abbrev pub payload_for : ℕ → TaskPayload → TaskPayload
payload_for id (user_payload none username email) = user_payload (some id) username email
payload_for id (user_payload (some i) username email) = user_payload (some i) username email
payload_for id (link_payload none username email url) = link_payload (some id) username email url
payload_for id (link_payload (some i) username email url) = link_payload (some i) username email url
payload_for id (alert_payload a b c) = alert_payload a b c

abbrev pub addressed : ℕ → OutboxEvent → OutboxEvent
addressed id e = record e { payload = payload_for id e.payload }

abbrev pub addressed_all : ℕ → List OutboxEvent → List OutboxEvent
addressed_all id [] = []
addressed_all id (e ∷ es) = addressed id e ∷ addressed_all id es

module _ (db : Session) where
  open db use {State}

  -- `session.add(event)` for each event.
  unfoldable pub add_events : List OutboxEvent → Exec State (Unit {0})
  add_events [] = pure tt
  add_events (e ∷ es) = do create_outbox_event db e; add_events es

  -- `after_flush` gives the user as it leaves it, and its events.
  unfoldable pub create_user_with_outbox :
      User → List OutboxEvent → (User → Exec State (User × List OutboxEvent)) → Exec State User
  create_user_with_outbox user outbox_events after_flush =
      try_except
        (do
          id ← next_id db
          write db (insert_user (record user { id = some id }))
          perform db flush_call
          add_events (addressed_all id outbox_events)
          after ← after_flush (record user { id = some id })
          add_events after.1
          perform db commit_call
          perform db refresh_call
          pure after.0)
        (do roll_back db; raise repository_error)

  module _ (crypto : Crypto db.State) (links : LinkSettings) where
    -- `after_flush` of `create_user`; `enabled` is the setting.
    unfoldable pub after_flush : Bool → User → Exec State (User × List OutboxEvent)
    after_flush false user = pure (user, [])
    after_flush true user = do
      token ← create_email_verification_token links db crypto user
      sent_at ← clock db
      write db (update_user user.id (mark_verification_sent sent_at))
      task_id ← new_uuid db crypto
      now ← clock db
      pure (
        mark_verification_sent sent_at user,
        build_verification_email_outbox_event task_id user.id user.username user.email
              (build_email_verification_url links token) "api.users.register" now
            ∷ [],
      )

    -- The three events that every registration stores.
    unfoldable pub registration_events : UserCreate → Exec State (List OutboxEvent)
    registration_events user_in = do
      registered_id ← new_uuid db crypto
      registered_at ← clock db
      welcome_id ← new_uuid db crypto
      welcome_at ← clock db
      webhook_id ← new_uuid db crypto
      webhook_at ← clock db
      pure (
          build_user_registered_outbox_event registered_id none user_in.username user_in.email
            "api.users.register" registered_at
          ∷ build_welcome_email_outbox_event welcome_id none user_in.username user_in.email
              "api.users.register" welcome_at
          ∷ build_user_registered_webhook_outbox_event webhook_id none user_in.username
              user_in.email "api.users.register" webhook_at
          ∷ [])

    -- The `try` block of `create_user`.
    unfoldable pub store_user : User → List OutboxEvent → Exec State (ServiceResult User)
    store_user user events =
        try_repository
          (do
            created ←
                create_user_with_outbox user events (after_flush links.email_verification_enabled)
            pure (success created))
          (pure (failure common_internal_error))

    -- Past the checks: the account is flushed outside of the `try` block.
    unfoldable pub register : UserCreate → Exec State (ServiceResult User)
    register user_in = do
      account_id ← next_id db
      write db
          (insert_account (record { id = account_id; name = append user_in.username "-account" }))
      perform db flush_call
      hashed ← (λ s. pure (crypto.hash_password s user_in.password) s)
      events ← registration_events user_in
      store_user (new_user user_in hashed (not links.email_verification_enabled) account_id) events

    abbrev pub register_unless : Bool → UserCreate → Exec State (ServiceResult User)
    register_unless true user_in = pure (failure user_conflict)
    register_unless false user_in = register user_in

    abbrev pub register_if_strong :
        Option PasswordFault → UserCreate → Exec State (ServiceResult User)
    register_if_strong (some _) user_in = pure (failure security_weak_password)
    register_if_strong none user_in = do
      exists ← user_exists db user_in.username user_in.email
      register_unless exists user_in

    unfoldable pub create_user :
        Unicode → PasswordPolicy → UserCreate → Exec State (ServiceResult User)
    create_user u policy user_in =
        register_if_strong
          (validate_password_policy u policy user_in.password user_in.username user_in.email)
          user_in

  abbrev pub user_result : Option User → ServiceResult User
  user_result none = failure user_not_found
  user_result (some user) = success user

  -- `UserService.get_user_by_id`
  unfoldable pub get_user : ℕ → Exec State (ServiceResult User)
  get_user user_id = do user ← get_user_by_id db user_id; pure (user_result user)
