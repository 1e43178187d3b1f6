-- ===== src/Registration/Effect.antt =====
-- What a registration asks for, and what it leaves.
use mathlib.Core.List.{append_assoc}
use fastapi.Prelude.{
  ℕ, String, ◌≡◌, refl, ap, ◌∙◌, none, some, Bool, true, false, not, List, [], ◌∷◌, ◌++◌, arith,
  str_eq, is_some, ◌||◌, find, update_where, All,
}
use fastapi.Exec.{returned, raised}
use fastapi.Db.{Session, Tables, Account, User, OutboxEvent, pending, has_key}
use fastapi.Auth.Users.{update_user, same_id}
use fastapi.Auth.Tokens.{Crypto}
use fastapi.Auth.Links.{LinkSettings}
use fastapi.Auth.Confirm.{mark_verification_sent}
use fastapi.Outbox.Events.{
  insert_event, build_outbox_event, build_user_registered_outbox_event,
  build_welcome_email_outbox_event, build_user_registered_webhook_outbox_event,
  build_verification_email_outbox_event,
}
use fastapi.Registration.Create.{
  UserCreate, insert_account, insert_user, new_user, registration_events,
}
use fastapi.Registration.Stored.{
  insert_events, stored_rows, returned_user, stored_user, stored_events, verification_event,
  sent_time,
}

-- A user with this name or this email.
abbrev pub is_taken : UserCreate → Tables → Bool
is_taken user_in rows =
    is_some
      (find (λ u. str_eq u.username user_in.username || str_eq u.email user_in.email) rows.users)

abbrev pub registration_tasks : Bool → List String
registration_tasks false = "user.registered" ∷ "email.send_welcome" ∷ "webhook.user_registered" ∷ []
registration_tasks true =
    "user.registered" ∷ "email.send_welcome" ∷ "webhook.user_registered" ∷ "email.send_verification"
    ∷ []

abbrev pub task_names : List OutboxEvent → List String
task_names [] = []
task_names (e ∷ es) = e.task_name ∷ task_names es

-- `rows'` are `rows` with one account, one user of it, and the events of the registration, which are
-- all pending; `enabled` tells whether emails are verified.
pub record IsRegistered {S : Type 0} (hash : S → String → String) (user_in : UserCreate)
    (enabled : Bool) (u : User) (rows rows' : Tables) : Type 0 where
  pub account : Account
  pub events : List OutboxEvent
  pub accounts : rows'.accounts ≡ rows.accounts ++ account ∷ []
  pub users : rows'.users ≡ rows.users ++ u ∷ []
  pub outbox : rows'.outbox_events ≡ rows.outbox_events ++ events
  pub stored : is_some u.id ≡ true
  pub linked : u.account_id ≡ some account.id
  pub username : u.username ≡ user_in.username
  pub email : u.email ≡ user_in.email
  pub at : S
  pub password : u.hashed_password ≡ hash at user_in.password
  pub phone : u.phone ≡ user_in.phone
  pub enabled_user : u.is_active ≡ true
  pub no_failures : u.failed_login_attempts ≡ 0
  pub no_lock : u.locked_until ≡ none
  pub role : u.role ≡ "user"
  pub verified : u.email_verified ≡ not enabled
  pub tasks : task_names events ≡ registration_tasks enabled
  pub waiting : All (λ e. e.status ≡ pending) events
  pub entitlements : rows'.entitlements ≡ rows.entitlements
  pub reservations : rows'.reservations ≡ rows.reservations
  pub usage_events : rows'.usage_events ≡ rows.usage_events
  pub items : rows'.items ≡ rows.items
  pub revoked_tokens : rows'.revoked_tokens ≡ rows.revoked_tokens

append-three :
    (es : List OutboxEvent) (a b c : OutboxEvent)
    → es ++ a ∷ [] ++ b ∷ [] ++ c ∷ [] ≡ es ++ (a ∷ b ∷ c ∷ [])
append-three es a b c =
    append_assoc (es ++ a ∷ []) (b ∷ []) (c ∷ []) ∙ append_assoc es (a ∷ []) (b ∷ c ∷ [])

-- An assignment to the row that was added last, whose key no other row has.
update_where-last :
    (id : ℕ) (f : User → User) (us : List User) (u : User)
    → find (λ x. has_key id x.id) us ≡ none
    → u.id ≡ some id
    → update_where (λ x. same_id x.id (some id)) f (us ++ u ∷ []) ≡ us ++ f u ∷ []
unfolding update_where find
update_where-last id f [] u new h = ground (arith, h)
update_where-last id f (x ∷ us) u new h = ground (arith, new, update_where-last id f us u)

module _ (db : Session) (crypto : Crypto db.State) (links : LinkSettings)
    (user_in : UserCreate) where
  open db use {State, view, saved, now, stage, call, serial}
  open links use {email_verification_enabled}

  -- The events as they are built, from the state after the account is flushed.
  abbrev pub built : State → List OutboxEvent
  built s = elim (registration_events db crypto links user_in s).0 [
    | returned es ↦ es
    | raised _ ↦ []
  ]

  pub stored-IsRegistered :
      (enabled : Bool) (a : Account) (at : State) (rows : Tables) (s0 s : State)
      → view s ≡ insert_account a rows
      → let user = new_user user_in (crypto.hash_password at user_in.password) (not enabled) a.id in
        IsRegistered crypto.hash_password user_in enabled
          (returned_user db crypto links user (built s0) s enabled)
          rows
          (stored_rows db crypto links user (built s0) s enabled (view s))
  unfolding registration_events insert_user insert_account insert_event update_user insert_events
      mark_verification_sent build_user_registered_outbox_event build_welcome_email_outbox_event
      build_user_registered_webhook_outbox_event build_verification_email_outbox_event
      build_outbox_event
  stored-IsRegistered false a at rows s0 s shown =
      let user = new_user user_in (crypto.hash_password at user_in.password) true a.id in
      record {
        account = a;
        events = stored_events db crypto links user (built s0) s;
        accounts = ap (λ t. t.accounts) shown;
        users = ap (λ t. t.users ++ stored_user db crypto links user (built s0) s ∷ []) shown;
        outbox =
            append-three (view s).outbox_events _ _ _
            ∙ ap (λ t. t.outbox_events ++ stored_events db crypto links user (built s0) s) shown;
        stored = refl;
        linked = refl;
        username = refl;
        email = refl;
        at = at;
        password = refl;
        phone = refl;
        enabled_user = refl;
        no_failures = refl;
        no_lock = refl;
        role = refl;
        verified = refl;
        tasks = refl;
        waiting = (refl, (refl, (refl, tt)));
        entitlements = ap (λ t. t.entitlements) shown;
        reservations = ap (λ t. t.reservations) shown;
        usage_events = ap (λ t. t.usage_events) shown;
        items = ap (λ t. t.items) shown;
        revoked_tokens = ap (λ t. t.revoked_tokens) shown;
      }
  stored-IsRegistered true a at rows s0 s shown =
      let user = new_user user_in (crypto.hash_password at user_in.password) false a.id in
      record {
        account = a;
        events =
            stored_events db crypto links user (built s0) s
            ++ verification_event db crypto links user (built s0) s ∷ [];
        accounts = ap (λ t. t.accounts) shown;
        users =
            update_where-last (serial s)
              (mark_verification_sent (sent_time db crypto links user (built s0) s)) (view s).users
              (stored_user db crypto links user (built s0) s) (db.serial-user s) refl
            ∙ ap (λ t. t.users ++ returned_user db crypto links user (built s0) s true ∷ []) shown;
        outbox =
            ap (λ es. es ++ verification_event db crypto links user (built s0) s ∷ [])
              (append-three (view s).outbox_events _ _ _)
            ∙ append_assoc (view s).outbox_events (stored_events db crypto links user (built s0) s)
                (verification_event db crypto links user (built s0) s ∷ [])
            ∙ ap
                (λ t.
                  t.outbox_events
                  ++ (stored_events db crypto links user (built s0) s
                      ++ verification_event db crypto links user (built s0) s ∷ []))
                shown;
        stored = refl;
        linked = refl;
        username = refl;
        email = refl;
        at = at;
        password = refl;
        phone = refl;
        enabled_user = refl;
        no_failures = refl;
        no_lock = refl;
        role = refl;
        verified = refl;
        tasks = refl;
        waiting = (refl, (refl, (refl, (refl, tt))));
        entitlements = ap (λ t. t.entitlements) shown;
        reservations = ap (λ t. t.reservations) shown;
        usage_events = ap (λ t. t.usage_events) shown;
        items = ap (λ t. t.items) shown;
        revoked_tokens = ap (λ t. t.revoked_tokens) shown;
      }
