-- ===== src/Worker/Steps.antt =====
-- The parts of a delivery, each by the state that it leaves.
use fastapi.Prelude.{ℕ, ◌≡◌, ◌+◌, ◌-◌, true, false, some, List, arith, ltb, if◌then◌else◌}
use fastapi.Exec.{returned, raised, other}
use fastapi.Worker.Idempotency.{start, complete, release, is_completed}
use fastapi.Worker.Tasks.{TaskEnvelope, dispatch_envelope, get_task_retry_policy, backoff_ms}
use fastapi.Worker.Runner.{
  Effect, acked, observed, timed, ran, retried, dead_lettered, Worker, Environment, try_envelope,
  start_task, perform_task, handle_failure, ◌▹◌,
}

-- Where a message goes that has failed with this retry count.
abbrev pub after_failure : {Payload : Type 0} → TaskEnvelope Payload → ℕ → Effect Payload
after_failure envelope n =
    if ltb n (get_task_retry_policy envelope.task).max_retries
    then retried envelope (n + 1) (backoff_ms (get_task_retry_policy envelope.task) n)
    else dead_lettered envelope n

module _ {Payload Body : Type 0} (env : Environment Payload Body) (envelope : TaskEnvelope Payload)
    (idempotent : env.settings.idempotency_enabled ≡ true) where
  open env use {settings, answers, time_at, validates, handles}

  pub perform_task_raises :
      (w : Worker Payload)
      → dispatch_envelope validates handles envelope ≡ false
      → perform_task env envelope w ≡ (raised other, record w { log = w.log ▹ ran envelope false })
  unfolding perform_task
  perform_task_raises w failed = ground (arith, failed)

  pub try_envelope_new :
      (w : Worker Payload)
      → (is_completed (time_at w.log) envelope.task_id w.records).0 ≡ false
      → let w' : Worker Payload = record {
        records = (is_completed (time_at w.log) envelope.task_id w.records).1;
        log = w.log ▹ timed;
      } in
        try_envelope env envelope w ≡ start_task env envelope w'
  unfolding try_envelope
  try_envelope_new w new = ground (arith, new, idempotent)

  pub start_task_free :
      (w : Worker Payload)
      → let taken =
          start
            (time_at w.log)
            (time_at (w.log ▹ timed))
            settings.idempotency_ttl
            envelope.task_id
            w.records in
        taken.0 ≡ true
        → let w' : Worker Payload = record { records = taken.1; log = w.log ▹ timed ▹ timed } in
          start_task env envelope w ≡ perform_task env envelope w'
  unfolding start_task
  start_task_free w free = ground (arith, free)

  module _ (returns : (l : List (Effect Payload)) (e : Effect Payload) → answers l e ≡ true) where
    pub perform_task_returns :
        (w : Worker Payload)
        → dispatch_envelope validates handles envelope ≡ true
        → let log = w.log ▹ ran envelope true in
          let w' : Worker Payload = record {
            records = complete (time_at log) settings.idempotency_ttl envelope.task_id w.records;
            log = log ▹ timed ▹ acked ▹ observed;
          } in
          perform_task env envelope w ≡ (returned tt, w')
    unfolding perform_task
    perform_task_returns w done =
        let log = w.log ▹ ran envelope true ▹ timed in
        ground (arith, done, idempotent, returns log acked, returns (log ▹ acked) observed)

    pub handle_failure_publishes :
        (n : ℕ) (w : Worker Payload)
        → settings.requeue_on_failure ≡ false
        → let w' : Worker Payload = record {
          records = release envelope.task_id w.records;
          log = w.log ▹ after_failure envelope n ▹ acked ▹ observed;
        } in
          handle_failure env (some envelope) n w ≡ (returned tt, w')
    unfolding handle_failure
    handle_failure_publishes n w no_requeue =
        let p = get_task_retry_policy envelope.task in
        let e = after_failure envelope n in
        let same : n + 1 - 1 ≡ n = omega arith in
        rw same (
          ground (
            arith,
            no_requeue,
            idempotent,
            returns w.log (retried envelope (n + 1) (backoff_ms p n)),
            returns w.log (dead_lettered envelope n),
            returns (w.log ▹ e) acked,
            returns (w.log ▹ e ▹ acked) observed,
          ))
