-- ===== src/Outbox/Tests.antt =====
-- A concrete event, and one instance of each theorem on the outbox.
use fastapi.Prelude.{ℕ, ◌≡◌, ◌≤◌, refl, none, some, [], ◌∷◌, arith, find, sum_by, ◌+◌}
use fastapi.Db.{Tables, OutboxEvent, pending, user_payload, TaskPayload}
use fastapi.Db.Demo.{Demo, demo}
use fastapi.Worker.Tasks.{TaskEnvelope, get_task_retry_policy, policy_for}
use fastapi.Outbox.Events.{event_by_id}
use fastapi.Outbox.Dispatch.{Publication, not_sent, dispatch_outbox_batch}
use fastapi.Outbox.Batch.{attempts_allowed, events_with}
use fastapi.Outbox.BatchEffect.{Dispatches, dispatch_outbox_batch_outcome}
use fastapi.Outbox.Retries.{IsTried, after_failures, after_failures_lem}

abbrev welcome : OutboxEvent
welcome = record {
  id = 3;
  task_id = "t3";
  task_name = "email.send_welcome";
  payload = user_payload (some 1) "ann" "ann@example.com";
  source = "api.users.register";
  status = pending;
  attempts = 0;
  available_at = 5;
  published_at = none;
  last_error = none;
}

abbrev rows : Tables
rows = record {
  accounts = [];
  users = [];
  entitlements = [];
  reservations = [];
  usage_events = [];
  items = [];
  outbox_events = welcome ∷ [];
  revoked_tokens = [];
}

abbrev at_rows : Demo
at_rows = record { view = rows; saved = rows; time = 10; script = [] }

abbrev no_broker : ℕ → TaskEnvelope TaskPayload → Publication
no_broker n e = not_sent

once : events_with 3 at_rows.saved.outbox_events ≤ 1
unfolding events_with sum_by
once = omega arith

row : event_by_id 3 at_rows.saved.outbox_events ≡ some welcome
unfolding event_by_id find
row = refl

dispatch_outbox_batch_outcome_example :
    Dispatches demo no_broker 100 welcome at_rows (dispatch_outbox_batch demo no_broker 100 at_rows)
dispatch_outbox_batch_outcome_example =
    dispatch_outbox_batch_outcome demo no_broker 100 welcome at_rows refl once row

one_more_allowed : welcome.attempts + 1 ≤ attempts_allowed "email.send_welcome"
unfolding attempts_allowed get_task_retry_policy policy_for
one_more_allowed = omega arith

after_failures_lem_example :
    (e' : OutboxEvent) × ((event_by_id 3
          (after_failures demo 3 ("no" ∷ []) at_rows).view.outbox_events
        ≡ some e')
      × IsTried demo 3 1 welcome e')
after_failures_lem_example =
    after_failures_lem demo 3 ("no" ∷ []) welcome at_rows row refl one_more_allowed
