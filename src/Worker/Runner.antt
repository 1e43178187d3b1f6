-- ===== src/Worker/Runner.antt =====
-- app/worker/runner.py, `_handle_delivery`: one message of the work queue, with the in-memory
-- idempotency store. The broker's channel, the clock and the handlers are parameters; each call of
-- them is an effect in a log, oldest first, and whether a call raises may depend on the log.
use fastapi.Prelude.{
  ℕ, String, ◌+◌, ◌-◌, Option, none, some, Bool, List, [], ◌∷◌, ◌++◌, ltb, if◌then◌else◌,
}
use fastapi.Exec.{Exec, Outcome, returned, raised, raise, other, pure, ◌>>=◌, ◌>>◌}
use fastapi.Worker.Idempotency.{Records, start, complete, release, is_completed}
use fastapi.Worker.Tasks.{TaskEnvelope, dispatch_envelope, get_task_retry_policy, backoff_ms}

-- `acked` and `nacked` answer the delivery; `retried` and `dead_lettered` publish the envelope with
-- its retry count, `retried` with a delay too; `observed` reads the depths of the queues; `ran` is
-- a dispatch, with whether it returned; `timed` reads the clock.
pub data Effect (Payload : Type 0) : Type 0 where
  acked nacked observed timed : Effect Payload
  ran : TaskEnvelope Payload → Bool → Effect Payload
  retried : TaskEnvelope Payload → ℕ → ℕ → Effect Payload
  dead_lettered : TaskEnvelope Payload → ℕ → Effect Payload

pub record WorkerSettings : Type 0 where
  pub requeue_on_failure : Bool
  pub idempotency_enabled : Bool
  pub idempotency_ttl : ℕ

pub record Worker (Payload : Type 0) : Type 0 where
  pub records : Records
  pub log : List (Effect Payload)

-- The header `x-retry-count`, as `int` reads it.
pub data RetryHeader : Type 0 where
  absent unreadable : RetryHeader
  count : ℕ → RetryHeader

unfoldable pub extract_retry_count : RetryHeader → ℕ
extract_retry_count absent = 0
extract_retry_count unreadable = 0
extract_retry_count (count n) = n

-- What the worker runs on: `answers` tells whether a call of the channel returns, `time_at` the time,
-- `parse` reads an envelope from a body.
pub record Environment (Payload Body : Type 0) : Type 0 where
  pub settings : WorkerSettings
  pub answers : List (Effect Payload) → Effect Payload → Bool
  pub time_at : List (Effect Payload) → ℕ
  pub parse : Body → Option (TaskEnvelope Payload)
  pub validates : String → Payload → Bool
  pub handles : String → Payload → Bool

module _ {Payload Body : Type 0} (env : Environment Payload Body) where
  open env use {settings, answers, time_at, parse, validates, handles}

  -- A call of the channel; what raises has had no effect.
  abbrev pub channel : Effect Payload → Exec (Worker Payload) (Unit {0})
  channel e w =
      if answers w.log e
      then (returned tt, record w { log = w.log ++ e ∷ [] })
      else (raised other, w)

  abbrev pub time : Exec (Worker Payload) ℕ
  time w = (returned (time_at w.log), record w { log = w.log ++ timed ∷ [] })

  abbrev pub update_records : (Records → Records) → Exec (Worker Payload) (Unit {0})
  update_records f w = (returned tt, record w { records = f w.records })

  abbrev pub with_records : {A : Type 0} → (Records → A × Records) → Exec (Worker Payload) A
  with_records f w =
      let (a, records') = f w.records in (returned a, record w { records = records' })

  unfoldable pub run_task : TaskEnvelope Payload → Exec (Worker Payload) (Unit {0})
  run_task envelope w =
      let done = dispatch_envelope validates handles envelope in
      (
        if done then returned tt else raised other,
        record w { log = w.log ++ ran envelope done ∷ [] },
      )

  abbrev pub acknowledge : Exec (Worker Payload) (Unit {0})
  acknowledge = do channel acked; channel observed

  unfoldable pub mark_completed : TaskEnvelope Payload → Exec (Worker Payload) (Unit {0})
  mark_completed envelope w =
      if settings.idempotency_enabled
      then (do now ← time; update_records (complete now settings.idempotency_ttl envelope.task_id))
          w
      else pure tt w

  -- The task is done and marked, and the message acknowledged.
  unfoldable pub perform_task : TaskEnvelope Payload → Exec (Worker Payload) (Unit {0})
  unfolding run_task mark_completed
  perform_task envelope = do run_task envelope; mark_completed envelope; acknowledge

  -- `if not idempotency.start(task_id)`
  unfoldable pub start_task : TaskEnvelope Payload → Exec (Worker Payload) (Unit {0})
  start_task envelope = do
    now ← time
    later ← time
    taken ← with_records (start now later settings.idempotency_ttl envelope.task_id)
    if taken then perform_task envelope else acknowledge

  -- The `try` block, past the parse.
  unfoldable pub try_envelope : TaskEnvelope Payload → Exec (Worker Payload) (Unit {0})
  try_envelope envelope =
      if settings.idempotency_enabled
      then (do
        now ← time
        done ← with_records (is_completed now envelope.task_id)
        if done then acknowledge else start_task envelope)
      else perform_task envelope

  abbrev pub unlock : TaskEnvelope Payload → Exec (Worker Payload) (Unit {0})
  unlock envelope w =
      if settings.idempotency_enabled
      then update_records (release envelope.task_id) w
      else pure tt w

  unfoldable pub publish_retry : TaskEnvelope Payload → ℕ → Exec (Worker Payload) (Unit {0})
  publish_retry envelope retry_count = channel (
      retried envelope retry_count
        (backoff_ms (get_task_retry_policy envelope.task) (retry_count - 1)))

  -- The `except` block: the message goes back, is published for a retry, or to the dead letters.
  unfoldable pub handle_failure :
      Option (TaskEnvelope Payload) → ℕ → Exec (Worker Payload) (Unit {0})
  unfolding publish_retry
  handle_failure none retry_count =
      if settings.requeue_on_failure then channel nacked else acknowledge
  handle_failure (some envelope) retry_count =
      if settings.requeue_on_failure
      then (do unlock envelope; channel nacked)
      else if ltb retry_count (get_task_retry_policy envelope.task).max_retries
      then (do unlock envelope; publish_retry envelope (retry_count + 1); acknowledge)
      else (do unlock envelope; channel (dead_lettered envelope retry_count); acknowledge)

  abbrev pub attempt : Option (TaskEnvelope Payload) → Exec (Worker Payload) (Unit {0})
  attempt none = raise other
  attempt (some envelope) = try_envelope envelope

  abbrev pub or_else :
      Option (TaskEnvelope Payload)
      → ℕ
      → Outcome (Unit {0}) × Worker Payload
      → Outcome (Unit {0}) × Worker Payload
  or_else envelope retry_count (returned _, w) = (returned tt, w)
  or_else envelope retry_count (raised _, w) = handle_failure envelope retry_count w

  unfoldable pub handle_delivery : RetryHeader → Body → Exec (Worker Payload) (Unit {0})
  unfolding extract_retry_count
  handle_delivery header body w =
      let retry_count = extract_retry_count header in
      let envelope = parse body in or_else envelope retry_count (attempt envelope w)

-- One more effect in a log.
infixl 60 ◌▹◌
abbrev pub ◌▹◌ : {Payload : Type 0} → List (Effect Payload) → Effect Payload → List (Effect Payload)
log ▹ e = log ++ e ∷ []
