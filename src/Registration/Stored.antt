-- ===== src/Registration/Stored.antt =====
-- What `create_user_with_outbox` saves.
use fastapi.Prelude.{
  ℕ, String, ◌≡◌, refl, ap, ◌∙◌, some, Bool, true, false, List, [], ◌∷◌, arith, ◌+◌,
}
use fastapi.Exec.{returned}
use fastapi.Db.{Session, Tables, User, OutboxEvent, minutes, commit_call, flush_call, refresh_call}
use fastapi.Auth.Users.{update_user}
use fastapi.Auth.Tokens.{Crypto, create_token}
use fastapi.Auth.Links.{LinkSettings, build_email_verification_url, create_email_verification_token}
use fastapi.Auth.Confirm.{mark_verification_sent}
use fastapi.Auth.Effects.{Saves}
use fastapi.Outbox.Events.{insert_event, create_outbox_event, build_verification_email_outbox_event}
use fastapi.Registration.Create.{
  insert_user, addressed_all, add_events, create_user_with_outbox, after_flush,
}

unfoldable pub insert_events : List OutboxEvent → Tables → Tables
insert_events [] t = t
insert_events (e ∷ es) t = insert_events es (insert_event e t)

module _ (db : Session) where
  open db use {State, view, saved, now, stage, call, serial}

  abbrev pub keyed_event : OutboxEvent → State → OutboxEvent
  keyed_event e s = record e { id = serial s }

  -- The events as they are stored, each with the key that was the next.
  abbrev pub keyed : List OutboxEvent → State → List OutboxEvent
  keyed [] s = []
  keyed (e ∷ es) s = keyed_event e s ∷ keyed es (stage (insert_event (keyed_event e s)) s)

  abbrev pub added : List OutboxEvent → State → State
  added [] s = s
  added (e ∷ es) s = added es (stage (insert_event (keyed_event e s)) s)

  pub add_events-added :
      (es : List OutboxEvent) (s : State) → add_events db es s ≡ (returned tt, added es s)
  unfolding add_events create_outbox_event
  add_events-added [] s = refl
  add_events-added (e ∷ es) s = add_events-added es (stage (insert_event (keyed_event e s)) s)

  pub view-added :
      (es : List OutboxEvent) (s : State) → view (added es s) ≡ insert_events (keyed es s) (view s)
  unfolding insert_events
  view-added [] s = refl
  view-added (e ∷ es) s =
      view-added es (stage (insert_event (keyed_event e s)) s)
      ∙ ap (insert_events (keyed es (stage (insert_event (keyed_event e s)) s)))
          (db.view-stage (insert_event (keyed_event e s)) s)

  pub saved-added : (es : List OutboxEvent) (s : State) → saved (added es s) ≡ saved s
  saved-added [] s = refl
  saved-added (e ∷ es) s =
      saved-added es (stage (insert_event (keyed_event e s)) s)
      ∙ db.saved-stage (insert_event (keyed_event e s)) s

  module _ (crypto : Crypto State) (links : LinkSettings) (user : User) (events : List OutboxEvent)
      (s : State) where
    abbrev pub stored_user : User
    stored_user = record user { id = some (serial s) }

    abbrev at_flush : State
    at_flush = (call flush_call (stage (insert_user stored_user) s)).1

    abbrev pub stored_events : List OutboxEvent
    stored_events = keyed (addressed_all (serial s) events) at_flush

    abbrev at_events : State
    at_events = added (addressed_all (serial s) events) at_flush

    -- After the clock of the token.
    abbrev at_token : State
    at_token = (now at_events).1

    abbrev pub sent_time : ℕ
    sent_time = (now at_token).0

    abbrev at_sent : State
    at_sent = stage (update_user stored_user.id (mark_verification_sent sent_time)) (now at_token).1

    abbrev pub verification_token : String
    verification_token = crypto.encode (record {
      subject = stored_user.id;
      username = stored_user.username;
      token_type = "email_verification";
      jti = crypto.uuid at_token;
      exp = some ((now at_events).0 + minutes links.email_verification_token_expire_minutes);
    })

    abbrev pub verification_event : OutboxEvent
    verification_event =
        keyed_event
          (build_verification_email_outbox_event (crypto.uuid at_sent) stored_user.id
            stored_user.username stored_user.email
            (build_email_verification_url links verification_token) "api.users.register"
            (now at_sent).0)
          (now at_sent).1

    abbrev pub base_rows : Tables → Tables
    base_rows t = insert_events stored_events (insert_user stored_user t)

    -- The rows that are saved, where `t` were shown before.
    abbrev pub stored_rows : Bool → Tables → Tables
    stored_rows false t = base_rows t
    stored_rows true t =
        insert_event verification_event
          (update_user stored_user.id (mark_verification_sent sent_time) (base_rows t))

    abbrev pub returned_user : Bool → User
    returned_user false = stored_user
    returned_user true = mark_verification_sent sent_time stored_user

    pub create_user_with_outbox-Saves :
        (enabled : Bool)
        → Saves db
            (returned_user enabled)
            (stored_rows enabled (view s))
            s
            (create_user_with_outbox db user events (after_flush db crypto links enabled) s)
    unfolding create_user_with_outbox after_flush create_email_verification_token create_token
        add_events create_outbox_event
    create_user_with_outbox-Saves false =
        let s1 = stage (insert_user stored_user) s in
        let es = addressed_all (serial s) events in
        let s3 = (call commit_call at_events).1 in
        let s4 = (call refresh_call s3).1 in
        ground (
          arith,
          add_events-added es at_flush,
          view-added es at_flush,
          saved-added es at_flush,
          db.view-stage (insert_user stored_user) s,
          db.saved-stage (insert_user stored_user) s,
          db.view-call flush_call s1,
          db.saved-flush s1,
          db.saved-rollback at_flush,
          db.saved-commit at_events,
          db.saved-commit_raised at_events,
          db.saved-refresh s3,
          db.saved-rollback s3,
          db.saved-rollback s4,
        )
    create_user_with_outbox-Saves true =
        let s1 = stage (insert_user stored_user) s in
        let es = addressed_all (serial s) events in
        let mark = update_user stored_user.id (mark_verification_sent sent_time) in
        let s2 = (now at_token).1 in
        let s3 = (now at_sent).1 in
        let s4 = stage (insert_event verification_event) s3 in
        let s5 = (call commit_call s4).1 in
        let s6 = (call refresh_call s5).1 in
        ground (
          arith,
          add_events-added es at_flush,
          view-added es at_flush,
          saved-added es at_flush,
          db.view-stage (insert_user stored_user) s,
          db.saved-stage (insert_user stored_user) s,
          db.view-call flush_call s1,
          db.saved-flush s1,
          db.saved-rollback at_flush,
          db.view-now at_events,
          db.saved-now at_events,
          db.view-now at_token,
          db.saved-now at_token,
          db.view-stage mark s2,
          db.saved-stage mark s2,
          db.view-now at_sent,
          db.saved-now at_sent,
          db.view-stage (insert_event verification_event) s3,
          db.saved-stage (insert_event verification_event) s3,
          db.saved-commit s4,
          db.saved-commit_raised s4,
          db.saved-refresh s5,
          db.saved-rollback s5,
          db.saved-rollback s6,
        )
