-- ===== src/Worker/Duplicates.antt =====
-- Deliveries of a task that the store knows, and a way in which a task that is done runs again.
use fastapi.Prelude.{◌≡◌, ◌≤◌, some, true, false, List, arith}
use fastapi.Exec.{returned, raised, other}
use fastapi.Worker.Idempotency.{
  TaskState, processing, completed, live, start, complete, is_completed, completion_lem, start_lem,
}
use fastapi.Worker.Tasks.{TaskEnvelope, dispatch_envelope}
use fastapi.Worker.Steps.{try_envelope_new}
use fastapi.Worker.Runner.{
  Effect, acked, observed, timed, ran, Worker, Environment, RetryHeader, handle_delivery,
  try_envelope, start_task, perform_task, ◌▹◌,
}

-- The log of a delivery that is skipped: the store is asked once for a task that is completed, and
-- again, to start it, for one in progress.
abbrev pub skipped : {Payload : Type 0} → TaskState → List (Effect Payload) → List (Effect Payload)
skipped completed log = log ▹ timed ▹ acked ▹ observed
skipped processing log = log ▹ timed ▹ timed ▹ timed ▹ acked ▹ observed

module _ {Payload Body : Type 0} (env : Environment Payload Body) (envelope : TaskEnvelope Payload)
    (idempotent : env.settings.idempotency_enabled ≡ true) where
  open env use {settings, answers, time_at, parse, validates, handles}

  try_envelope_completed :
      (w : Worker Payload)
      → (is_completed (time_at w.log) envelope.task_id w.records).0 ≡ true
      → answers (w.log ▹ timed) acked ≡ true
      → answers (w.log ▹ timed ▹ acked) observed ≡ true
      → ((try_envelope env envelope w).0 ≡ returned tt)
        × ((try_envelope env envelope w).1.log ≡ w.log ▹ timed ▹ acked ▹ observed)
  unfolding try_envelope
  try_envelope_completed w done a b = ground (arith, done, idempotent, a, b)

  start_task_busy :
      (w : Worker Payload)
      → (start
          (time_at w.log)
          (time_at (w.log ▹ timed))
          settings.idempotency_ttl
          envelope.task_id
          w.records).0
        ≡ false
      → answers (w.log ▹ timed ▹ timed) acked ≡ true
      → answers (w.log ▹ timed ▹ timed ▹ acked) observed ≡ true
      → ((start_task env envelope w).0 ≡ returned tt)
        × ((start_task env envelope w).1.log ≡ w.log ▹ timed ▹ timed ▹ acked ▹ observed)
  unfolding start_task
  start_task_busy w busy a b = ground (arith, busy, a, b)

  -- The handler returns and the message is acknowledged, but reading the queue depths raises.
  perform_task_unobserved :
      (w : Worker Payload)
      → dispatch_envelope validates handles envelope ≡ true
      → let log = w.log ▹ ran envelope true ▹ timed in
        answers log acked ≡ true
        → answers (log ▹ acked) observed ≡ false
        → let w' : Worker Payload = record {
          records =
              complete
                (time_at (w.log ▹ ran envelope true))
                settings.idempotency_ttl
                envelope.task_id
                w.records;
          log = log ▹ acked;
        } in
          perform_task env envelope w ≡ (raised other, w')
  unfolding perform_task
  perform_task_unobserved w done a b = ground (arith, done, idempotent, a, b)

  -- Let the store have a record of the task that is live when the delivery asks for it, and again when
  -- it would start it, and let the calls of the channel return. The message is acknowledged, and the
  -- task is not run, nor anything published.
  pub duplicate_skipped :
      (header : RetryHeader) (body : Body) (w : Worker Payload) (st : TaskState)
      → parse body ≡ some envelope
      → ((l : List (Effect Payload)) (e : Effect Payload) → answers l e ≡ true)
      → live (time_at w.log) w.records envelope.task_id ≡ some st
      → live (time_at (w.log ▹ timed)) w.records envelope.task_id ≡ some st
      → time_at w.log ≤ time_at (w.log ▹ timed)
      → ((handle_delivery env header body w).0 ≡ returned tt)
        × ((handle_delivery env header body w).1.log ≡ skipped st w.log)
  unfolding handle_delivery
  duplicate_skipped header body w completed parsed returns known known' ordered =
      let id = envelope.task_id in
      let facts =
        completion_lem (time_at w.log) settings.idempotency_ttl (time_at (w.log ▹ timed)) id id
          w.records ordered in
      let skip =
        try_envelope_completed w (ground (arith, facts, known)) (returns (w.log ▹ timed) acked)
          (returns (w.log ▹ timed ▹ acked) observed) in
      ground (arith, parsed, skip)
  duplicate_skipped header body w processing parsed returns known known' ordered =
      let id = envelope.task_id in
      let now = time_at w.log in
      let now' = time_at (w.log ▹ timed) in
      let facts = completion_lem now settings.idempotency_ttl now' id id w.records ordered in
      let w' : Worker Payload = record {
        records = (is_completed now id w.records).1;
        log = w.log ▹ timed;
      } in
      let first = try_envelope_new env envelope idempotent w (ground (arith, facts, known)) in
      let started =
        start_lem now' (time_at (w'.log ▹ timed)) settings.idempotency_ttl now' id id w'.records
          (omega arith) in
      let skip =
        start_task_busy w' (ground (arith, facts, known', started))
          (returns (w'.log ▹ timed ▹ timed) acked)
          (returns (w'.log ▹ timed ▹ timed ▹ acked) observed) in
      ground (arith, parsed, first, skip)
