-- ===== src/Billing/Effects.antt =====
-- The repository writes of metered features, each as one attempt.
use fastapi.Prelude.{ℕ, ◌+◌, arith}
use fastapi.Db.{Session, FeatureEntitlement, UsageReservation, UsageEvent, Status, flush_call}
use fastapi.Db.Attempt.{Attempts, insert_attempt}
use fastapi.Billing.Entitlements.{charge_entitlement, update_entitlement_usage}
use fastapi.Billing.Reservations.{
  insert_reservation, set_reservation_status, create_usage_reservation, mark_reservation_status,
}
use fastapi.Billing.Usage.{insert_usage_event, create_usage_event}

module _ (db : Session) where
  open db use {State, view, saved, now, serial, stage, call}

  pub update_entitlement_usage-Attempts :
      (e : FeatureEntitlement) (n : ℕ) (s : State)
      → Attempts db
          (record e { units_used = e.units_used + n; updated_at = (now s).0 })
          (charge_entitlement e.id n (now s).0 (view s))
          s
          (update_entitlement_usage db e n s)
  unfolding update_entitlement_usage
  update_entitlement_usage-Attempts e n s =
      let s' = stage (charge_entitlement e.id n (now s).0) (now s).1 in
      ground (
        arith,
        db.view-now s,
        db.saved-now s,
        db.view-stage (charge_entitlement e.id n (now s).0) (now s).1,
        db.saved-stage (charge_entitlement e.id n (now s).0) (now s).1,
        db.view-call flush_call s',
        db.saved-flush s',
        db.view-rollback (call flush_call s').1,
        db.saved-rollback (call flush_call s').1,
      )

  pub mark_reservation_status-Attempts :
      (r : UsageReservation) (st : Status) (s : State)
      → Attempts db
          (record r { status = st; updated_at = (now s).0 })
          (set_reservation_status r.id st (now s).0 (view s))
          s
          (mark_reservation_status db r st s)
  unfolding mark_reservation_status
  mark_reservation_status-Attempts r st s =
      let s' = stage (set_reservation_status r.id st (now s).0) (now s).1 in
      ground (
        arith,
        db.view-now s,
        db.saved-now s,
        db.view-stage (set_reservation_status r.id st (now s).0) (now s).1,
        db.saved-stage (set_reservation_status r.id st (now s).0) (now s).1,
        db.view-call flush_call s',
        db.saved-flush s',
        db.view-rollback (call flush_call s').1,
        db.saved-rollback (call flush_call s').1,
      )

  pub create_usage_reservation-Attempts :
      (r : UsageReservation) (s : State)
      → Attempts db
          (record r { id = serial s })
          (insert_reservation (record r { id = serial s }) (view s))
          s
          (create_usage_reservation db r s)
  unfolding create_usage_reservation
  create_usage_reservation-Attempts r s =
      insert_attempt db (insert_reservation (record r { id = serial s }))
        (record r { id = serial s }) s

  pub create_usage_event-Attempts :
      (e : UsageEvent) (s : State)
      → Attempts db
          (record e { id = serial s })
          (insert_usage_event (record e { id = serial s }) (view s))
          s
          (create_usage_event db e s)
  unfolding create_usage_event
  create_usage_event-Attempts e s =
      insert_attempt db (insert_usage_event (record e { id = serial s }))
        (record e { id = serial s }) s
