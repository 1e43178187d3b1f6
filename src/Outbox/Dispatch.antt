-- ===== src/Outbox/Dispatch.antt =====
-- app/jobs/dispatch_outbox.py, one batch. `publish_envelope` talks to the message broker: it is a
-- parameter.
use fastapi.Prelude.{ℕ, String, Bool, List, [], ◌∷◌, ◌+◌, ◌*◌, min, leb, if◌then◌else◌}
use fastapi.Exec.{Exec, pure, ◌>>=◌, ◌>>◌}
use fastapi.Db.{Session, OutboxEvent, TaskPayload, perform, commit_call, clock}
use fastapi.Worker.Tasks.{TaskEnvelope, get_task_retry_policy, backoff_ms}
use fastapi.Outbox.Events.{
  list_pending_outbox_events, mark_outbox_event_published, mark_outbox_event_pending,
  mark_outbox_event_failed,
}

-- `publish_envelope` returns true, returns false, or raises with a text.
pub data Publication : Type 0 where
  sent not_sent : Publication
  not_reached : String → Publication

pub record DispatchCounts : Type 0 where
  pub published : ℕ
  pub retried : ℕ
  pub failed : ℕ

abbrev pub default_max_attempts : ℕ
default_max_attempts = 20

-- `_build_envelope`
abbrev pub build_envelope : OutboxEvent → TaskEnvelope TaskPayload
build_envelope event = record {
  task = event.task_name;
  payload = event.payload;
  task_id = event.task_id;
}

-- `min(retry_policy.max_retries + 1, DEFAULT_MAX_ATTEMPTS)`
abbrev pub max_attempts_for : String → ℕ
max_attempts_for task_name =
    min ((get_task_retry_policy task_name).max_retries + 1) default_max_attempts

-- `next_attempt >= min(...)`: whether a failure is the event's last.
unfoldable pub is_last : OutboxEvent → Bool
is_last event = leb (max_attempts_for event.task_name) (event.attempts + 1)

abbrev pub milliseconds : ℕ → ℕ
milliseconds n = n * 1_000

abbrev pub delay_of : OutboxEvent → ℕ
delay_of event = milliseconds (backoff_ms (get_task_retry_policy event.task_name) event.attempts)

-- What becomes of an event.
pub data Dispatched : Type 0 where
  was_published was_retried was_failed : Dispatched

abbrev pub tally : Dispatched → DispatchCounts → DispatchCounts
tally was_published c = record c { published = c.published + 1 }
tally was_retried c = record c { retried = c.retried + 1 }
tally was_failed c = record c { failed = c.failed + 1 }

module _ (db : Session) where
  open db use {State}

  -- The `except` block.
  unfoldable pub retry_or_fail : OutboxEvent → String → Exec State Dispatched
  retry_or_fail event error s =
      if is_last event
      then (do mark_outbox_event_failed db event error; pure was_failed) s
      else (do
        now ← clock db
        mark_outbox_event_pending db event (event.attempts + 1) (now + delay_of event) error
        pure was_retried)
          s

  unfoldable pub dispatch_event : Publication → OutboxEvent → Exec State Dispatched
  dispatch_event sent event = do mark_outbox_event_published db event; pure was_published
  dispatch_event not_sent event = retry_or_fail event "Worker broker is not configured."
  dispatch_event (not_reached error) event = retry_or_fail event error

  module _ (publish : ℕ → TaskEnvelope TaskPayload → Publication) where
    -- The loop; `n` events have been tried before.
    unfoldable pub dispatch_events :
        ℕ → List OutboxEvent → DispatchCounts → Exec State DispatchCounts
    dispatch_events n [] counts = pure counts
    dispatch_events n (event ∷ events) counts = do
      outcome ← dispatch_event (publish n (build_envelope event)) event
      dispatch_events (n + 1) events (tally outcome counts)

    unfoldable pub dispatch_outbox_batch : ℕ → Exec State DispatchCounts
    dispatch_outbox_batch limit = do
      events ← list_pending_outbox_events db limit
      counts ← dispatch_events 0 events (record { published = 0; retried = 0; failed = 0 })
      perform db commit_call
      pure counts
