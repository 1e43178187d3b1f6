-- ===== src/Outbox/BatchEffect.antt =====
-- What a batch of the dispatcher leaves of each event in the table.
use fastapi.Prelude.{
  ℕ, ◌≡◌, refl, sym, ◌∙◌, ◌≤◌, ◌<◌, ◌+◌, Option, none, some, List, [], ◌∷◌, ◌==◌, arith, inl, inr,
  find, sum_by, length, take, Bool-cases,
}
use fastapi.Exec.{Outcome, returned, raised}
use fastapi.Db.{Session, OutboxEvent, TaskPayload, IsClean, query_call}
use fastapi.Worker.Tasks.{TaskEnvelope}
use fastapi.Outbox.Events.{event_by_id, update_event, due_events, list_pending_outbox_events}
use fastapi.Outbox.Dispatch.{
  Publication, DispatchCounts, Dispatched, was_published, was_retried, was_failed, tally,
  build_envelope, dispatch_event, dispatch_events, dispatch_outbox_batch,
}
use fastapi.Outbox.Batch.{
  attempted, verdict, events_with, event_by_id-update, attempted-id, dispatch_event-Attempted,
  dispatch_events-Passes,
}
use fastapi.Outbox.Page.{none-events_with, due_events-once, due_events-row}

abbrev pub total : DispatchCounts → ℕ
total c = c.published + c.retried + c.failed

total-tally : (d : Dispatched) (c : DispatchCounts) → total (tally d c) ≡ total c + 1
total-tally was_published c = omega arith
total-tally was_retried c = omega arith
total-tally was_failed c = omega arith

module _ (db : Session) (publish : ℕ → TaskEnvelope TaskPayload → Publication) where
  open db use {State, view, saved, now}

  -- The loop tries the event `e` at the time `t`, as the event number `m`.
  abbrev Meets : ℕ → ℕ → OutboxEvent → State → Outcome DispatchCounts × State → Type 0
  Meets t m e s (returned c, s') =
      (saved s' ≡ saved s)
      × (event_by_id e.id (view s').outbox_events
          ≡ some (attempted t (publish m (build_envelope e)) e e))
  Meets t m e s (raised _, s') = ⊥

  dispatch_events-Meets :
      (n : ℕ) (es : List OutboxEvent) (c : DispatchCounts) (e : OutboxEvent) (s : State)
      → events_with e.id es ≤ 1
      → event_by_id e.id es ≡ some e
      → event_by_id e.id (view s).outbox_events ≡ some e
      → (at : State) × (j : ℕ) × (j < length es)
        × (at ≡ (dispatch_events db publish n (take j es) c s).1)
        × Meets (now at).0 (n + j) e s (dispatch_events db publish n es c s)
  unfolding dispatch_events event_by_id find events_with sum_by update_event
  dispatch_events-Meets n [] c e s one h r =
      (s, 0, ground (arith, h), ground (arith, h), ground (arith, h))
  dispatch_events-Meets n (x ∷ es) c e s one h r =
      let p = publish n (build_envelope x) in
      let s' = (dispatch_event db p x s).1 in
      let step = dispatch_event-Attempted db p x s in
      let here =
        event_by_id-update e.id x.id (attempted (now s).0 p x) (view s).outbox_events
          (attempted-id (now s).0 p x) in
      elim (Bool-cases (x.id == e.id)) [
        | inl same ↦ (
          s,
          0,
          omega arith,
          refl,
          ground (
            arith,
            same,
            step,
            here,
            h,
            r,
            dispatch_events-Passes db publish e.id (n + 1) es (tally (verdict p x) c) s',
          ),
        )
        | inr other ↦
            let (at, j, less, then, rest) =
              dispatch_events-Meets (n + 1) es (tally (verdict p x) c) e s'
                (ground (arith, one, other)) (ground (arith, h, other))
                (ground (arith, step, here, other, r)) in
            (at, j + 1, omega (arith, less), ground (arith, step, then), ground (arith, step, rest))
      ]

  -- How many events the loop counts.
  abbrev Counts : ℕ → Outcome DispatchCounts × State → Type 0
  Counts n (returned c, s') = total c ≡ n
  Counts n (raised _, s') = ⊥

  dispatch_events-Counts :
      (n : ℕ) (es : List OutboxEvent) (c : DispatchCounts) (s : State)
      → Counts (total c + length es) (dispatch_events db publish n es c s)
  unfolding dispatch_events
  dispatch_events-Counts n [] c s = omega arith
  dispatch_events-Counts n (x ∷ es) c s =
      let p = publish n (build_envelope x) in
      let s' = (dispatch_event db p x s).1 in
      ground (
        arith,
        dispatch_event-Attempted db p x s,
        dispatch_events-Counts (n + 1) es (tally (verdict p x) c) s',
        total-tally (verdict p x) c,
      )

  abbrev pub zeros : DispatchCounts
  zeros = record { published = 0; retried = 0; failed = 0 }

  -- The events that a batch takes, and its state when it has tried the first `m` of them.
  abbrev pub page_of : ℕ → State → List OutboxEvent
  page_of limit s = due_events (now s).0 limit (saved s)

  abbrev pub state_after : ℕ → ℕ → State → State
  state_after m limit s =
      (dispatch_events db publish 0 (take m (page_of limit s)) zeros
        (db.call query_call (now s).1).1).1

  -- What a batch leaves of the event `e`: the time of its attempt is read when the events before it
  -- in the page have been tried.
  abbrev pub Leaves : ℕ → OutboxEvent → State → State → Type 0
  Leaves limit e s s' = elim (event_by_id e.id (page_of limit s)) [
    | none ↦ event_by_id e.id (saved s').outbox_events ≡ some e
    | some _ ↦
        (m : ℕ) × (m < length (page_of limit s))
        × (event_by_id e.id (saved s').outbox_events
            ≡ some (attempted (now (state_after m limit s)).0 (publish m (build_envelope e)) e e))
  ]

  abbrev pub Dispatches : ℕ → OutboxEvent → State → Outcome DispatchCounts × State → Type 0
  Dispatches limit e s (returned c, s') = (total c ≡ length (page_of limit s)) × Leaves limit e s s'
  Dispatches limit e s (raised _, s') = saved s' ≡ saved s

  -- The same for an event of the page, with the time and the number of its attempt.
  abbrev DispatchesAt : ℕ → ℕ → ℕ → OutboxEvent → State → Outcome DispatchCounts × State → Type 0
  DispatchesAt t m limit e s (returned c, s') =
      (total c ≡ length (page_of limit s))
      × (event_by_id e.id (saved s').outbox_events
          ≡ some (attempted t (publish m (build_envelope e)) e e))
  DispatchesAt t m limit e s (raised _, s') = saved s' ≡ saved s

  Dispatches-intro :
      (m limit : ℕ) (e x : OutboxEvent) (s : State) (o : Outcome DispatchCounts × State)
      → event_by_id e.id (page_of limit s) ≡ some x
      → m < length (page_of limit s)
      → DispatchesAt (now (state_after m limit s)).0 m limit e s o
      → Dispatches limit e s o
  Dispatches-intro m limit e x s (returned c, s') h less (counted, row) =
      (counted, rw (h, Leaves) (m, less, row))
  Dispatches-intro m limit e x s (raised _, s') h less kept = kept

  -- `dispatch_outbox_batch`, in a session with no pending change, for an event of the table whose key
  -- no other event has. A batch that returns has counted every event of its page, the first `limit`
  -- that are due. It has saved the event as it was if it is not in the page, and otherwise as one
  -- attempt to publish leaves it: published, pending with one more attempt and due again after the
  -- delay of its task's policy, or failed if that was its last. The delay counts from the time that
  -- is read once the events before it in the page have been tried. A batch that raises has saved
  -- nothing.
  pub dispatch_outbox_batch_outcome :
      (limit : ℕ) (e : OutboxEvent) (s : State)
      → IsClean db s
      → events_with e.id (saved s).outbox_events ≤ 1
      → event_by_id e.id (saved s).outbox_events ≡ some e
      → Dispatches limit e s (dispatch_outbox_batch db publish limit s)
  unfolding dispatch_outbox_batch list_pending_outbox_events
  dispatch_outbox_batch_outcome limit e s clean one row = go (event_by_id e.id page) refl
    where
      page : List OutboxEvent
      page = page_of limit s

      s2 : State
      s2 = (db.call query_call (now s).1).1

      s3 : State
      s3 = (dispatch_events db publish 0 page zeros s2).1

      go :
          (found : Option OutboxEvent)
          → event_by_id e.id page ≡ found
          → Dispatches limit e s (dispatch_outbox_batch db publish limit s)
      go none h = ground (
        arith,
        h,
        clean,
        row,
        db.view-now s,
        db.saved-now s,
        db.view-call query_call (now s).1,
        db.saved-query (now s).1,
        dispatch_events-Counts 0 page zeros s2,
        dispatch_events-Passes db publish e.id 0 page zeros s2 (none-events_with e.id page h),
        db.saved-commit s3,
        db.saved-commit_raised s3,
      )
      go (some x) h =
          let once = due_events-once e.id (now s).0 limit (saved s) one in
          let found = h ∙ sym (due_events-row e.id (now s).0 limit (saved s) one h) ∙ row in
          let v = db.view-call query_call (now s).1 in
          elim (Bool-cases (db.call query_call (now s).1).0) [
            | inl done ↦
                let (at, m, less, then, meets) =
                  dispatch_events-Meets 0 page zeros e s2 once found
                    (ground (arith, v, done, clean, row, db.view-now s)) in
                Dispatches-intro m limit e x s (dispatch_outbox_batch db publish limit s) h less (
                  ground (
                    arith,
                    done,
                    v,
                    clean,
                    db.view-now s,
                    db.saved-now s,
                    db.saved-query (now s).1,
                    dispatch_events-Counts 0 page zeros s2,
                    meets,
                    then,
                    db.saved-commit s3,
                    db.saved-commit_raised s3,
                  ))
            | inr broken ↦ ground (arith, broken, db.saved-now s, db.saved-query (now s).1)
          ]
