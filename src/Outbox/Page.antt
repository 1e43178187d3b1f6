-- ===== src/Outbox/Page.antt =====
-- The events that one batch takes, against the rows that it reads them from.
use fastapi.Prelude.{
  ℕ, zero, suc, ◌≡◌, refl, sym, ◌∙◌, ◌≤◌, none, some, Bool, List, [], ◌∷◌, arith, leb, find, filter,
  take, sort_by, insert_by, sum_by,
}
use fastapi.Db.{Tables, OutboxEvent}
use fastapi.Outbox.Events.{event_by_id, due_events, is_due}
use fastapi.Outbox.Batch.{events_with}

events_with-filter :
    (k : ℕ) (p : OutboxEvent → Bool) (es : List OutboxEvent)
    → events_with k (filter p es) ≤ events_with k es
unfolding events_with sum_by filter
events_with-filter k p [] = omega arith
events_with-filter k p (e ∷ es) = ground (arith, events_with-filter k p es)

events_with-insert_by :
    (k : ℕ) (before : OutboxEvent → OutboxEvent → Bool) (x : OutboxEvent) (es : List OutboxEvent)
    → events_with k (insert_by before x es) ≡ events_with k (x ∷ es)
unfolding events_with sum_by insert_by
events_with-insert_by k before x [] = refl
events_with-insert_by k before x (e ∷ es) = ground (arith, events_with-insert_by k before x es)

events_with-sort_by :
    (k : ℕ) (before : OutboxEvent → OutboxEvent → Bool) (es : List OutboxEvent)
    → events_with k (sort_by before es) ≡ events_with k es
unfolding sort_by events_with sum_by
events_with-sort_by k before [] = refl
events_with-sort_by k before (e ∷ es) =
    omega
      (arith, events_with-insert_by k before e (sort_by before es), events_with-sort_by k before es)

events_with-take : (k n : ℕ) (es : List OutboxEvent) → events_with k (take n es) ≤ events_with k es
unfolding events_with sum_by
events_with-take k zero es = omega arith
events_with-take k (suc n) [] = omega arith
events_with-take k (suc n) (e ∷ es) = ground (arith, events_with-take k n es)

pub none-events_with :
    (k : ℕ) (es : List OutboxEvent) → event_by_id k es ≡ none → events_with k es ≡ 0
unfolding event_by_id find events_with sum_by
none-events_with k [] h = refl
none-events_with k (e ∷ es) h = ground (arith, none-events_with k es)

zero-event_by_id : (k : ℕ) (es : List OutboxEvent) → events_with k es ≡ 0 → event_by_id k es ≡ none
unfolding event_by_id find events_with sum_by
zero-event_by_id k [] h = refl
zero-event_by_id k (e ∷ es) h = ground (arith, zero-event_by_id k es)

event_by_id-filter :
    (k : ℕ) (p : OutboxEvent → Bool) (es : List OutboxEvent) {e : OutboxEvent}
    → events_with k es ≤ 1
    → event_by_id k (filter p es) ≡ some e
    → event_by_id k es ≡ some e
unfolding event_by_id find events_with sum_by filter
event_by_id-filter k p [] one h = h
event_by_id-filter k p (x ∷ es) {e} one h = ground (
  arith,
  event_by_id-filter k p es {e = e},
  zero-event_by_id k (filter p es),
  events_with-filter k p es,
)

event_by_id-insert_by :
    (k : ℕ) (before : OutboxEvent → OutboxEvent → Bool) (x : OutboxEvent) (es : List OutboxEvent)
    → events_with k (x ∷ es) ≤ 1
    → event_by_id k (insert_by before x es) ≡ event_by_id k (x ∷ es)
unfolding event_by_id find events_with sum_by insert_by
event_by_id-insert_by k before x [] one = refl
event_by_id-insert_by k before x (e ∷ es) one = ground (arith, event_by_id-insert_by k before x es)

event_by_id-sort_by :
    (k : ℕ) (before : OutboxEvent → OutboxEvent → Bool) (es : List OutboxEvent)
    → events_with k es ≤ 1
    → event_by_id k (sort_by before es) ≡ event_by_id k es
unfolding sort_by event_by_id find events_with sum_by
event_by_id-sort_by k before [] one = refl
event_by_id-sort_by k before (e ∷ es) one = ground (
  arith,
  event_by_id-insert_by k before e (sort_by before es),
  event_by_id-sort_by k before es,
  events_with-sort_by k before es,
)

event_by_id-take :
    (k n : ℕ) (es : List OutboxEvent) {e : OutboxEvent}
    → event_by_id k (take n es) ≡ some e
    → event_by_id k es ≡ some e
unfolding event_by_id find
event_by_id-take k zero es h = ground (arith, h)
event_by_id-take k (suc n) [] h = h
event_by_id-take k (suc n) (x ∷ es) {e} h = ground (arith, event_by_id-take k n es {e = e})

-- No event is twice in a page if its key is once in the table, and the page holds the rows as read.
pub due_events-once :
    (k t limit : ℕ) (rows : Tables)
    → events_with k rows.outbox_events ≤ 1
    → events_with k (due_events t limit rows) ≤ 1
unfolding due_events
due_events-once k t limit rows one =
    let before : OutboxEvent → OutboxEvent → Bool = λ a b. leb a.id b.id in
    let due = filter (is_due t) rows.outbox_events in
    omega (
      arith,
      one,
      events_with-filter k (is_due t) rows.outbox_events,
      events_with-sort_by k before due,
      events_with-take k limit (sort_by before due),
    )

pub due_events-row :
    (k t limit : ℕ) (rows : Tables) {e : OutboxEvent}
    → events_with k rows.outbox_events ≤ 1
    → event_by_id k (due_events t limit rows) ≡ some e
    → event_by_id k rows.outbox_events ≡ some e
unfolding due_events
due_events-row k t limit rows one h =
    let before : OutboxEvent → OutboxEvent → Bool = λ a b. leb a.id b.id in
    let due = filter (is_due t) rows.outbox_events in
    event_by_id-filter k (is_due t) rows.outbox_events one (
      sym (
        event_by_id-sort_by k before due
          (omega (arith, one, events_with-filter k (is_due t) rows.outbox_events)))
      ∙ event_by_id-take k limit (sort_by before due) h)
