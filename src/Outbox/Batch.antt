-- ===== src/Outbox/Batch.antt =====
-- What one batch of the dispatcher saves, event by event.
use mathlib.Core.Path.{subst}
use fastapi.Prelude.Text.{text_take}
use fastapi.Prelude.{
  sym, Bool, true, false, Bool-cases, inl, inr, leb, min, ◌*◌, ◌^◌, ℕ, String, ◌≡◌, refl, ap, ◌∙◌,
  ◌+◌, Option, none, some, List, [], ◌∷◌, ◌==◌, arith, if◌then◌else◌, find, update_where, sum_by,
}
use fastapi.Exec.{Outcome, returned, raised}
use fastapi.Db.{Session, OutboxEvent, published, pending, failed, TaskPayload}
use fastapi.Worker.Tasks.{TaskEnvelope, get_task_retry_policy, backoff_ms}
use fastapi.Outbox.Events.{
  event_by_id, update_event, as_published, as_pending, as_failed, mark_outbox_event_published,
  mark_outbox_event_pending, mark_outbox_event_failed,
}
use fastapi.Outbox.Dispatch.{
  Publication, sent, not_sent, not_reached, DispatchCounts, Dispatched, was_published, was_retried,
  was_failed, tally, build_envelope, is_last, delay_of, retry_or_fail, dispatch_event,
  dispatch_events,
}

-- How often an event of a task is tried.
unfoldable pub attempts_allowed : String → ℕ
attempts_allowed task_name = min ((get_task_retry_policy task_name).max_retries + 1) 20

-- A further failure is the event's last.
unfoldable pub uses_up : OutboxEvent → Bool
unfolding attempts_allowed
uses_up e = leb (attempts_allowed e.task_name) (e.attempts + 1)

unfoldable pub row_published : ℕ → OutboxEvent → OutboxEvent
row_published now row = record row {
  status = published;
  published_at = some now;
  last_error = none;
}

-- The row is due again after the delay of the task's policy, which doubles up to its limit.
unfoldable pub row_retried : ℕ → String → OutboxEvent → OutboxEvent → OutboxEvent
row_retried now error e row =
    let p = get_task_retry_policy e.task_name in
    record row {
      status = pending;
      attempts = e.attempts + 1;
      available_at = now + min (p.base_delay_ms * 2 ^ e.attempts) p.max_delay_ms * 1_000;
      last_error = some (text_take 500 error);
    }

unfoldable pub row_failed : String → OutboxEvent → OutboxEvent
row_failed error row = record row {
  status = failed;
  attempts = row.attempts + 1;
  last_error = some (text_take 500 error);
}

-- The row after a failure of `e`, at the time `now`.
abbrev pub refused_at : ℕ → String → OutboxEvent → OutboxEvent → OutboxEvent
refused_at now error e row = if uses_up e then row_failed error row else row_retried now error e row

-- The row after an attempt to publish `e`.
abbrev pub attempted : ℕ → Publication → OutboxEvent → OutboxEvent → OutboxEvent
attempted now sent e row = row_published now row
attempted now not_sent e row = refused_at now "Worker broker is not configured." e row
attempted now (not_reached error) e row = refused_at now error e row

abbrev pub verdict : Publication → OutboxEvent → Dispatched
verdict sent e = was_published
verdict not_sent e = if is_last e then was_failed else was_retried
verdict (not_reached _) e = if is_last e then was_failed else was_retried

-- The number of events in a list that have a key.
unfoldable pub events_with : ℕ → List OutboxEvent → ℕ
events_with k = sum_by (λ e. if e.id == k then 1 else 0)

abbrev pub changed : (OutboxEvent → OutboxEvent) → Option OutboxEvent → Option OutboxEvent
changed f none = none
changed f (some e) = some (f e)

pub event_by_id-update :
    (k id : ℕ) (f : OutboxEvent → OutboxEvent) (es : List OutboxEvent)
    → ((e : OutboxEvent) → (f e).id ≡ e.id)
    → event_by_id k (update_where (λ e. e.id == id) f es)
      ≡ (if id == k then changed f (event_by_id k es) else event_by_id k es)
unfolding event_by_id find update_where
event_by_id-update k id f [] keeps = ground arith
event_by_id-update k id f (e ∷ es) keeps =
    ground (arith, keeps e, event_by_id-update k id f es keeps)

pub attempted-id :
    (now : ℕ) (p : Publication) (e row : OutboxEvent) → (attempted now p e row).id ≡ row.id
attempted-id now sent e row = unfold row_published in refl
attempted-id now not_sent e row = unfold row_failed row_retried in ground arith
attempted-id now (not_reached error) e row = unfold row_failed row_retried in ground arith

module _ (db : Session) where
  open db use {State, view, saved, stage, now}

  -- An attempt returns, and changes one row in the session.
  abbrev pub Attempts :
      Dispatched
      → (OutboxEvent → OutboxEvent)
      → OutboxEvent
      → State
      → Outcome Dispatched × State
      → Type 0
  Attempts d f e s (returned v, s') =
      (v ≡ d) × (saved s' ≡ saved s) × (view s' ≡ update_event e.id f (view s))
  Attempts d f e s (raised _, s') = ⊥

  abbrev pub Attempted : ℕ → Publication → OutboxEvent → State → Outcome Dispatched × State → Type 0
  Attempted t p e s o = Attempts (verdict p e) (attempted t p e) e s o

  retry_or_fail_last :
      (error : String) (e : OutboxEvent) (s : State)
      → is_last e ≡ true
      → Attempts was_failed (as_failed error) e s (retry_or_fail db e error s)
  unfolding retry_or_fail mark_outbox_event_failed
  retry_or_fail_last error e s last =
      let f = as_failed error in
      ground
        (arith, last, db.saved-stage (update_event e.id f) s, db.view-stage (update_event e.id f) s)

  retry_or_fail_again :
      (error : String) (e : OutboxEvent) (s : State)
      → is_last e ≡ false
      → Attempts was_retried
          (as_pending (e.attempts + 1) ((now s).0 + delay_of e) error)
          e
          s
          (retry_or_fail db e error s)
  unfolding retry_or_fail mark_outbox_event_pending
  retry_or_fail_again error e s more =
      let g = as_pending (e.attempts + 1) ((now s).0 + delay_of e) error in
      ground (
        arith,
        more,
        db.saved-stage (update_event e.id g) (now s).1,
        db.view-stage (update_event e.id g) (now s).1,
        db.saved-now s,
        db.view-now s,
      )

  -- The branch of `refused_at`.
  refused_branch :
      (t : ℕ) (error : String) (e : OutboxEvent) (b : Bool)
      → uses_up e ≡ b
      → (λ row. if b then row_failed error row else row_retried t error e row)
        ≡ attempted t (not_reached error) e
  refused_branch t error e b used =
      ap (λ x row. if x then row_failed error row else row_retried t error e row) (sym used)

  retry_or_fail-Attempted :
      (error : String) (e : OutboxEvent) (s : State)
      → Attempted (now s).0 (not_reached error) e s (retry_or_fail db e error s)
  retry_or_fail-Attempted error e s =
      let t = (now s).0 in
      let P = λ (f : OutboxEvent → OutboxEvent).
        Attempts (verdict (not_reached error) e) f e s (retry_or_fail db e error s) in
      elim (Bool-cases (is_last e)) [
        | inl last ↦
            subst P
              (refused_branch t error e true (unfold is_last uses_up attempts_allowed in last))
              (rw last (unfold row_failed in retry_or_fail_last error e s last))
        | inr more ↦
            subst P
              (refused_branch t error e false (unfold is_last uses_up attempts_allowed in more))
              (rw more (unfold row_retried backoff_ms in retry_or_fail_again error e s more))
      ]

  pub dispatch_event-Attempted :
      (p : Publication) (e : OutboxEvent) (s : State)
      → Attempted (now s).0 p e s (dispatch_event db p e s)
  unfolding dispatch_event mark_outbox_event_published row_published
  dispatch_event-Attempted sent e s =
      let f = as_published (now s).0 in
      (
        refl,
        db.saved-stage (update_event e.id f) (now s).1 ∙ db.saved-now s,
        db.view-stage (update_event e.id f) (now s).1 ∙ ap (update_event e.id f) (db.view-now s),
      )
  dispatch_event-Attempted not_sent e s =
      retry_or_fail-Attempted "Worker broker is not configured." e s
  dispatch_event-Attempted (not_reached error) e s = retry_or_fail-Attempted error e s

  module _ (publish : ℕ → TaskEnvelope TaskPayload → Publication) where
    -- The loop returns, saves nothing, and leaves the row of a key that it does not meet.
    abbrev pub Passes : ℕ → State → Outcome DispatchCounts × State → Type 0
    Passes k s (returned c, s') =
        (saved s' ≡ saved s)
        × (event_by_id k (view s').outbox_events ≡ event_by_id k (view s).outbox_events)
    Passes k s (raised _, s') = ⊥

    pub dispatch_events-Passes :
        (k n : ℕ) (es : List OutboxEvent) (c : DispatchCounts) (s : State)
        → events_with k es ≡ 0
        → Passes k s (dispatch_events db publish n es c s)
    unfolding dispatch_events events_with sum_by update_event
    dispatch_events-Passes k n [] c s h = (refl, refl)
    dispatch_events-Passes k n (e ∷ es) c s h =
        let p = publish n (build_envelope e) in
        let s' = (dispatch_event db p e s).1 in
        ground (
          arith,
          dispatch_event-Attempted p e s,
          event_by_id-update k e.id (attempted (now s).0 p e) (view s).outbox_events
              (attempted-id (now s).0 p e),
          dispatch_events-Passes k (n + 1) es (tally (verdict p e) c) s',
        )
