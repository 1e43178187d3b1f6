-- ===== src/Outbox/Events.antt =====
-- app/db/repositories/outbox_event.py and app/worker/outbox.py: the events, and the writes to them.
use fastapi.Prelude.{
  ℕ, String, Option, none, some, Bool, true, false, List, [], ◌∷◌, ◌++◌, ◌+◌, ◌==◌, ◌&&◌, leb, find,
  filter, take, sort_by, update_where, length,
}
use fastapi.Prelude.Text.{text_take}
use fastapi.Exec.{Exec, ◌>>=◌}
use fastapi.Db.{
  Session, Tables, OutboxEvent, OutboxStatus, pending, published, failed, TaskPayload, user_payload,
  link_payload, alert_payload, write, select, clock, next_id,
}

abbrev pub same_outbox_status : OutboxStatus → OutboxStatus → Bool
same_outbox_status pending pending = true
same_outbox_status published published = true
same_outbox_status failed failed = true
same_outbox_status _ _ = false

-- `build_outbox_event`, as the row is at the time `now`. `task_id` is that of `TaskMetadata`.
unfoldable pub build_outbox_event : String → String → TaskPayload → String → ℕ → OutboxEvent
build_outbox_event task_id task_name payload source now = record {
  id = 0;
  task_id = task_id;
  task_name = task_name;
  payload = payload;
  source = source;
  status = pending;
  attempts = 0;
  available_at = now;
  published_at = none;
  last_error = none;
}

unfoldable pub build_user_registered_outbox_event :
    String → Option ℕ → String → String → String → ℕ → OutboxEvent
build_user_registered_outbox_event task_id user_id username email =
    build_outbox_event task_id "user.registered" (user_payload user_id username email)

unfoldable pub build_welcome_email_outbox_event :
    String → Option ℕ → String → String → String → ℕ → OutboxEvent
build_welcome_email_outbox_event task_id user_id username email =
    build_outbox_event task_id "email.send_welcome" (user_payload user_id username email)

unfoldable pub build_user_registered_webhook_outbox_event :
    String → Option ℕ → String → String → String → ℕ → OutboxEvent
build_user_registered_webhook_outbox_event task_id user_id username email =
    build_outbox_event task_id "webhook.user_registered" (user_payload user_id username email)

unfoldable pub build_password_reset_email_outbox_event :
    String → Option ℕ → String → String → String → String → ℕ → OutboxEvent
build_password_reset_email_outbox_event task_id user_id username email reset_url =
    build_outbox_event task_id "email.send_password_reset"
      (link_payload user_id username email reset_url)

unfoldable pub build_verification_email_outbox_event :
    String → Option ℕ → String → String → String → String → ℕ → OutboxEvent
build_verification_email_outbox_event task_id user_id username email verification_url =
    build_outbox_event task_id "email.send_verification"
      (link_payload user_id username email verification_url)

unfoldable pub build_worker_failure_alert_outbox_event :
    String → String → String → String → String → ℕ → OutboxEvent
build_worker_failure_alert_outbox_event task_id failed_task failed_id error_message =
    build_outbox_event task_id "webhook.worker_failure_alert"
      (alert_payload failed_task failed_id error_message)

unfoldable pub insert_event : OutboxEvent → Tables → Tables
insert_event e t = record t { outbox_events = t.outbox_events ++ e ∷ [] }

unfoldable pub event_by_id : ℕ → List OutboxEvent → Option OutboxEvent
event_by_id id = find (λ e. e.id == id)

-- Assignments to the fields of one event.
unfoldable pub update_event : ℕ → (OutboxEvent → OutboxEvent) → Tables → Tables
update_event id f t = record t { outbox_events = update_where (λ e. e.id == id) f t.outbox_events }

abbrev pub as_published : ℕ → OutboxEvent → OutboxEvent
as_published now e = record e { status = published; published_at = some now; last_error = none }

-- `last_error` is the text of the exception, cut to 500 characters.
abbrev pub as_pending : ℕ → ℕ → String → OutboxEvent → OutboxEvent
as_pending attempts available_at last_error e = record e {
  status = pending;
  attempts = attempts;
  available_at = available_at;
  last_error = some (text_take 500 last_error);
}

abbrev pub as_failed : String → OutboxEvent → OutboxEvent
as_failed last_error e = record e {
  status = failed;
  attempts = e.attempts + 1;
  last_error = some (text_take 500 last_error);
}

abbrev pub is_due : ℕ → OutboxEvent → Bool
is_due now e = same_outbox_status e.status pending && leb e.available_at now

-- `ORDER BY id`, the first `limit` events that are due.
unfoldable pub due_events : ℕ → ℕ → Tables → List OutboxEvent
due_events now limit t =
    take limit (sort_by (λ a b. leb a.id b.id) (filter (is_due now) t.outbox_events))

unfoldable pub count_status : OutboxStatus → Tables → ℕ
count_status status t = length (filter (λ e. same_outbox_status e.status status) t.outbox_events)

module _ (db : Session) where
  open db use {State}

  -- One event of `session.add_all(events)`; a row gets its key when it is stored. `add_all` does not
  -- raise.
  unfoldable pub create_outbox_event : OutboxEvent → Exec State (Unit {0})
  create_outbox_event event = do id ← next_id db; write db (insert_event (record event { id = id }))

  unfoldable pub list_pending_outbox_events : ℕ → Exec State (List OutboxEvent)
  list_pending_outbox_events limit = do now ← clock db; select db (due_events now limit)

  unfoldable pub mark_outbox_event_published : OutboxEvent → Exec State (Unit {0})
  mark_outbox_event_published event = do
    now ← clock db
    write db (update_event event.id (as_published now))

  unfoldable pub mark_outbox_event_pending : OutboxEvent → ℕ → ℕ → String → Exec State (Unit {0})
  mark_outbox_event_pending event attempts available_at last_error =
      write db (update_event event.id (as_pending attempts available_at last_error))

  unfoldable pub mark_outbox_event_failed : OutboxEvent → String → Exec State (Unit {0})
  mark_outbox_event_failed event last_error =
      write db (update_event event.id (as_failed last_error))

  unfoldable pub count_outbox_events_by_status : OutboxStatus → Exec State ℕ
  count_outbox_events_by_status status = select db (count_status status)
