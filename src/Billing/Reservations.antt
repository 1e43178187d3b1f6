-- ===== src/Billing/Reservations.antt =====
-- app/db/repositories/usage_reservation.py: the queries and writes of `usage_reservation`.
use fastapi.Prelude.{ℕ, Option, List, [], ◌∷◌, ◌++◌, ◌==◌, filter, find, update_where, sort_by, leb}
use fastapi.Exec.{Exec, pure, raise, repository_error, try_except, ◌>>=◌, ◌>>◌}
use fastapi.Db.{
  Session, Tables, UsageReservation, Status, clock, select, write, perform, roll_back, next_id,
  flush_call, refresh_call,
}

unfoldable pub reservation_by_id : ℕ → Tables → Option UsageReservation
reservation_by_id id t = find (λ r. r.id == id) t.reservations

unfoldable pub insert_reservation : UsageReservation → Tables → Tables
insert_reservation r t = record t { reservations = t.reservations ++ r ∷ [] }

-- The assignments of `mark_reservation_status`, in the row with this key.
unfoldable pub set_reservation_status : ℕ → Status → ℕ → Tables → Tables
set_reservation_status id status now t = record t {
  reservations =
      update_where (λ r. r.id == id) (λ r. record r { status = status; updated_at = now })
        t.reservations;
}

module _ (db : Session) where
  open db use {State}

  unfoldable pub create_usage_reservation : UsageReservation → Exec State UsageReservation
  create_usage_reservation reservation =
      try_except
        (do
          id ← next_id db
          write db (insert_reservation (record reservation { id = id }))
          perform db flush_call
          perform db refresh_call
          pure (record reservation { id = id }))
        (do roll_back db; raise repository_error)

  unfoldable pub get_reservation_by_id_for_update : ℕ → Exec State (Option UsageReservation)
  get_reservation_by_id_for_update reservation_id = select db (reservation_by_id reservation_id)

  unfoldable pub list_account_reservations : ℕ → Exec State (List UsageReservation)
  list_account_reservations account_id = select db (λ t.
      sort_by (λ a b. leb b.id a.id) (filter (λ r. r.account_id == account_id) t.reservations))

  unfoldable pub mark_reservation_status : UsageReservation → Status → Exec State UsageReservation
  mark_reservation_status reservation status =
      try_except
        (do
          now ← clock db
          write db (set_reservation_status reservation.id status now)
          perform db flush_call
          pure (record reservation { status = status; updated_at = now }))
        (do roll_back db; raise repository_error)
