-- ===== src/Worker/Deliveries.antt =====
-- What one delivery does, by what the store knows of the task and by how the handler ends.
use fastapi.Prelude.{ℕ, ◌≡◌, ◌≤◌, none, some, true, false, List, arith, eq_iff, ◌∙◌, ◌+◌}
use fastapi.Exec.{returned}
use fastapi.Worker.Idempotency.{
  completed, live, live_later, start, start_lem, is_completed, until, completion_lem,
}
use fastapi.Worker.Tasks.{TaskEnvelope, dispatch_envelope}
use fastapi.Worker.Steps.{
  after_failure, perform_task_raises, perform_task_returns, try_envelope_new, start_task_free,
  handle_failure_publishes,
}
use fastapi.Worker.Runner.{
  Effect, acked, observed, timed, ran, Worker, Environment, RetryHeader, extract_retry_count,
  handle_delivery, try_envelope, perform_task, ◌▹◌,
}

module _ {Payload Body : Type 0} (env : Environment Payload Body) (envelope : TaskEnvelope Payload)
    (idempotent : env.settings.idempotency_enabled ≡ true)
    (returns : (l : List (Effect Payload)) (e : Effect Payload) → env.answers l e ≡ true)
    (w : Worker Payload) (free : live (env.time_at w.log) w.records envelope.task_id ≡ none)
    (ordered : env.time_at w.log ≤ env.time_at (w.log ▹ timed)) where
  open env use {settings, answers, time_at, parse, validates, handles}

  -- The worker when it has taken the task.
  abbrev took : Worker Payload
  took = record {
    records =
        (start (time_at (w.log ▹ timed)) (time_at (w.log ▹ timed ▹ timed)) settings.idempotency_ttl
          envelope.task_id (is_completed (time_at w.log) envelope.task_id w.records).1).1;
    log = w.log ▹ timed ▹ timed ▹ timed;
  }

  try_envelope_free : try_envelope env envelope w ≡ perform_task env envelope took
  try_envelope_free =
      let now = time_at w.log in
      let now' = time_at (w.log ▹ timed) in
      let id = envelope.task_id in
      let pruned = (is_completed now id w.records).1 in
      let facts = completion_lem now settings.idempotency_ttl now' id id w.records ordered in
      let started =
        start_lem now' (time_at (w.log ▹ timed ▹ timed)) settings.idempotency_ttl now' id id pruned
          (omega arith) in
      let free' = live_later now now' w.records id ordered free in
      let w' : Worker Payload = record { records = pruned; log = w.log ▹ timed } in
      let first = try_envelope_new env envelope idempotent w (ground (arith, facts, free)) in
      let second =
        start_task_free env envelope idempotent w' (ground (arith, facts, free', started)) in
      first ∙ second

  module _ (header : RetryHeader) (body : Body) (parsed : parse body ≡ some envelope) where
    -- Let idempotency be enabled, the message parse, the store know nothing of the task, the clock
    -- not go back, and every call of the channel return. If the handler returns, the task is run
    -- once, marked as completed until its time to live is over, and the message acknowledged;
    -- nothing is published.
    pub delivery_succeeds :
        (t : ℕ)
        → dispatch_envelope validates handles envelope ≡ true
        → let log = w.log ▹ timed ▹ timed ▹ timed ▹ ran envelope true in
          time_at log ≤ t
          → let w' = (handle_delivery env header body w).1 in
            ((handle_delivery env header body w).0 ≡ returned tt)
            × (w'.log ≡ log ▹ timed ▹ acked ▹ observed)
            × (live t w'.records envelope.task_id
                ≡ until t (time_at log + settings.idempotency_ttl) completed)
    unfolding handle_delivery
    delivery_succeeds t done late =
        let log = w.log ▹ timed ▹ timed ▹ timed ▹ ran envelope true in
        let id = envelope.task_id in
        let run = perform_task_returns env envelope idempotent returns took done in
        let facts =
          completion_lem (time_at log) settings.idempotency_ttl t id id took.records late in
        ground (arith, parsed, try_envelope_free, run, facts, eq_iff id id)

    -- Let idempotency be enabled, the message parse, the store know nothing of the task, the clock
    -- not go back, and every call of the channel return. If the handler raises, and failures are not
    -- requeued, the message is published once: for a retry with one more in its count and the delay
    -- of the policy, or to the dead letters if it has no retries left. It is acknowledged, and the
    -- task is free again, so that the retry will run.
    pub delivery_fails :
        (t : ℕ)
        → dispatch_envelope validates handles envelope ≡ false
        → settings.requeue_on_failure ≡ false
        → let w' = (handle_delivery env header body w).1 in
          ((handle_delivery env header body w).0 ≡ returned tt)
          × (w'.log
              ≡ w.log
                ▹ timed
                ▹ timed
                ▹ timed
                ▹ ran envelope false
                ▹ after_failure envelope (extract_retry_count header)
                ▹ acked
                ▹ observed)
          × (live t w'.records envelope.task_id ≡ none)
    unfolding handle_delivery
    delivery_fails t failed no_requeue =
        let n = extract_retry_count header in
        let log = w.log ▹ timed ▹ timed ▹ timed ▹ ran envelope false in
        let id = envelope.task_id in
        let run = perform_task_raises env envelope idempotent took failed in
        let w' : Worker Payload = record { records = took.records; log = log } in
        let sent = handle_failure_publishes env envelope idempotent returns n w' no_requeue in
        let facts = completion_lem t settings.idempotency_ttl t id id took.records (omega arith) in
        ground (arith, parsed, try_envelope_free, run, sent, facts, eq_iff id id)
