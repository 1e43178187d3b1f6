-- ===== src/Outbox/Retries.antt =====
-- How often an event is tried that cannot be published.
use fastapi.Prelude.{
  ℕ, suc, String, ◌≡◌, ◌<◌, ◌≤◌, ◌+◌, none, some, List, [], ◌∷◌, ◌==◌, arith, length, find-passes,
  ==→eq,
}
use fastapi.Db.{Session, OutboxEvent, pending, failed}
use fastapi.Outbox.Events.{event_by_id, update_event}
use fastapi.Outbox.Dispatch.{not_reached, dispatch_event}
use fastapi.Outbox.Batch.{
  attempted, attempts_allowed, uses_up, row_failed, row_retried, event_by_id-update, attempted-id,
  dispatch_event-Attempted,
}

event_by_id-id :
    (id : ℕ) (es : List OutboxEvent) {e : OutboxEvent} → event_by_id id es ≡ some e → e.id ≡ id
unfolding event_by_id
event_by_id-id id es {e} h = ==→eq e.id id (find-passes (λ x. x.id == id) es h)

module _ (db : Session) (id : ℕ) where
  open db use {State, view, now}

  -- The event is read and cannot be published.
  unfoldable pub fail_once : String → State → State
  fail_once error s = elim (event_by_id id (view s).outbox_events) [
    | none ↦ s
    | some e ↦ (dispatch_event db (not_reached error) e s).1
  ]

  unfoldable pub after_failures : List String → State → State
  after_failures [] s = s
  after_failures (error ∷ errors) s = after_failures errors (fail_once error s)

  row-fail_once :
      (error : String) (e : OutboxEvent) (s : State)
      → event_by_id id (view s).outbox_events ≡ some e
      → event_by_id id (view (fail_once error s)).outbox_events
        ≡ some (attempted (now s).0 (not_reached error) e e)
  unfolding fail_once update_event
  row-fail_once error e s row = ground (
    arith,
    row,
    event_by_id-id id (view s).outbox_events {e = e} row,
    dispatch_event-Attempted db (not_reached error) e s,
    event_by_id-update id e.id (attempted (now s).0 (not_reached error) e) (view s).outbox_events
        (attempted-id (now s).0 (not_reached error) e),
  )

  -- The event `e'` after `n` failures of `e`.
  pub record IsTried (n : ℕ) (e e' : OutboxEvent) : Type 0 where
    pub attempts : e'.attempts ≡ e.attempts + n
    pub waits : e.attempts + n < attempts_allowed e.task_name → e'.status ≡ pending
    pub gives_up : 0 < n → e.attempts + n ≡ attempts_allowed e.task_name → e'.status ≡ failed

  attempted-IsTried :
      (error : String) (t : ℕ) (e : OutboxEvent) → IsTried 1 e (attempted t (not_reached error) e e)
  unfolding uses_up row_failed row_retried
  attempted-IsTried error t e = record {
    attempts = ground arith;
    waits = λ more. ground (arith, more);
    gives_up = λ some_left ends. ground (arith, ends);
  }

  IsTried-suc :
      (error : String) (t n : ℕ) (e e' : OutboxEvent)
      → IsTried n (attempted t (not_reached error) e e) e'
      → 0 < n
      → IsTried (suc n) e e'
  unfolding row_failed row_retried
  IsTried-suc error t n e e' h left = record {
    attempts = ground (arith, h.attempts);
    waits = λ more. ground (arith, h.waits, more);
    gives_up = λ some_left ends. ground (arith, h.gives_up, left, ends);
  }

  -- Let an event be in the table of the session, pending, and be tried again and again by
  -- `dispatch_event` without being published, at most as often as its task allows: one more than
  -- the retries of its policy, and at most twenty times. It is then in the table with each failure
  -- counted, pending if it may be tried again, and failed if not.
  pub after_failures_lem :
      (errors : List String) (e : OutboxEvent) (s : State)
      → event_by_id id (view s).outbox_events ≡ some e
      → e.status ≡ pending
      → e.attempts + length errors ≤ attempts_allowed e.task_name
      → (e' : OutboxEvent) × ((event_by_id id (view (after_failures errors s)).outbox_events
            ≡ some e')
          × IsTried (length errors) e e')
  unfolding after_failures
  after_failures_lem [] e s row h le = (
    e,
    (
      row,
      record {
        attempts = omega arith;
        waits = λ more. h;
        gives_up = λ some_left ends. absurd (omega (arith, some_left));
      },
    ),
  )
  after_failures_lem (error ∷ []) e s row h le = (
    attempted (now s).0 (not_reached error) e e,
    (row-fail_once error e s row, attempted-IsTried error (now s).0 e),
  )
  after_failures_lem (error ∷ f ∷ rest) e s row h le =
      let once = attempted-IsTried error (now s).0 e in
      let next = attempted (now s).0 (not_reached error) e e in
      let (e', (row', tried)) =
        after_failures_lem (f ∷ rest) next (fail_once error s) (row-fail_once error e s row)
          (once.waits (omega (arith, le)))
          (unfold row_failed row_retried in ground (arith, le, once.attempts)) in
      (e', (row', IsTried-suc error (now s).0 (length (f ∷ rest)) e e' tried (omega arith)))
