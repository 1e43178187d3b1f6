-- ===== src/Items/Charge.antt =====
-- A write to an item and its charge are saved together, or neither is.
use fastapi.Prelude.{ℕ, ◌≡◌, refl, sym, ap, ◌∙◌, none, some, arith}
use fastapi.Exec.{
  Outcome, returned, raised, repository_error, other, ServiceResult, success, failure, ◌>>=◌,
}
use fastapi.Db.{Session, Tables, Item, UsageReservation, UsageEvent, released, IsClean}
use fastapi.Db.Attempt.{Attempts, insert_attempt}
use fastapi.Billing.Reservations.{reservation_by_id, insert_reservation, set_reservation_status}
use fastapi.Billing.Enforcement.{commit_reserved_usage, release_reserved_usage}
use fastapi.Billing.Settlement.{settled, IsEventOf}
use fastapi.Billing.Release.{ReleaseOutcome, release_reserved_usage_outcome}
use fastapi.Billing.Pending.{CommitsAll, commit_reserved_usage-CommitsAll}
use fastapi.Billing.Run.{reservation_by_id-insert}
use fastapi.Items.Rows.{add_item}
use fastapi.Items.Service.{commit_answer, release_answer, settle_write, write_item}

-- The items, the entitlements and the usage events are what they were.
pub record IsUntouched (t u : Tables) : Type 0 where
  pub items : u.items ≡ t.items
  pub entitlements : u.entitlements ≡ t.entitlements
  pub usage_events : u.usage_events ≡ t.usage_events

module _ (db : Session) where
  open db use {State, view, saved}

  -- `t` are the rows that were saved before the reservation `r`, `f` is the change to the items.
  abbrev pub WritesItem :
      UsageReservation
      → (Tables → Tables)
      → Item
      → Tables
      → Outcome (ServiceResult Item) × State
      → Type 0
  WritesItem r f item t (returned (success x), s') =
      (x ≡ item)
      × ((ev : UsageEvent) × ((m : ℕ) × ((n : ℕ) × (IsEventOf r ev
                × (saved s' ≡ settled r ev m n (f (insert_reservation r t)))))))
  WritesItem r f item t (returned (failure _), s') = IsUntouched t (saved s')
  WritesItem r f item t (raised _, s') = IsUntouched t (saved s')

  -- The rows with the reservation alone.
  insert_reservation-IsUntouched :
      (r : UsageReservation) (t : Tables) (s' : State)
      → saved s' ≡ insert_reservation r t
      → IsUntouched t (saved s')
  unfolding insert_reservation
  insert_reservation-IsUntouched r t s' h = record {
    items = ap (λ (x : Tables). x.items) h;
    entitlements = ap (λ (x : Tables). x.entitlements) h;
    usage_events = ap (λ (x : Tables). x.usage_events) h;
  }

  set_reservation_status-IsUntouched :
      (r : UsageReservation) (id u : ℕ) (t : Tables) (s' : State)
      → saved s' ≡ set_reservation_status id released u (insert_reservation r t)
      → IsUntouched t (saved s')
  unfolding insert_reservation set_reservation_status
  set_reservation_status-IsUntouched r id u t s' h = record {
    items = ap (λ (x : Tables). x.items) h;
    entitlements = ap (λ (x : Tables). x.entitlements) h;
    usage_events = ap (λ (x : Tables). x.usage_events) h;
  }

  module _ (r : UsageReservation) (f : Tables → Tables) (item : Item) (t : Tables) where
    commit_answer-WritesItem :
        (s1 : State) (o : Outcome (ServiceResult UsageEvent) × State)
        → view s1 ≡ f (insert_reservation r t)
        → saved s1 ≡ insert_reservation r t
        → CommitsAll db r s1 o
        → WritesItem r f item t (((λ _. o) >>= commit_answer db item) s1)
    commit_answer-WritesItem s1 (returned (success ev), s') v w (fit, (m, (n, h))) =
        (refl, (ev, (m, (n, (fit, h ∙ ap (settled r ev m n) v)))))
    commit_answer-WritesItem s1 (returned (failure _), s') v w h =
        insert_reservation-IsUntouched r t (db.rollback s') (db.saved-rollback s' ∙ h ∙ w)
    commit_answer-WritesItem s1 (raised _, s') v w h = insert_reservation-IsUntouched r t s' (h ∙ w)

    release_answer-WritesItem :
        (s1 : State) (o : Outcome (ServiceResult (Unit {0})) × State)
        → saved s1 ≡ insert_reservation r t
        → ReleaseOutcome db r.id s1 o
        → WritesItem r f item t (((λ _. o) >>= release_answer db) s1)
    release_answer-WritesItem s1 (returned (success _), s') w (r', u, found, act, h) =
        set_reservation_status-IsUntouched r r'.id u t s'
          (h ∙ ap (set_reservation_status r'.id released u) w)
    release_answer-WritesItem s1 (returned (failure _), s') w h =
        insert_reservation-IsUntouched r t s' (h ∙ w)
    release_answer-WritesItem s1 (raised _, s') w h = insert_reservation-IsUntouched r t s' (h ∙ w)

    module _ (new : reservation_by_id r.id t ≡ none)
        (keeps : (u : Tables) → reservation_by_id r.id (f u) ≡ reservation_by_id r.id u) where
      after_add :
          (s : State) (o : Outcome Item × State)
          → add_item db f item s ≡ o
          → IsClean db s
          → saved s ≡ insert_reservation r t
          → Attempts db item (f (view s)) s o
          → WritesItem r f item t (write_item db r.id f item s)
      unfolding write_item settle_write
      after_add s (returned y, s') e clean w (same, v, w') =
          let v' : view s' ≡ f (insert_reservation r t) = v ∙ ap f (clean ∙ w) in
          let found : reservation_by_id r.id (view s') ≡ some r =
            ap (reservation_by_id r.id) v'
            ∙ keeps (insert_reservation r t)
            ∙ reservation_by_id-insert r t new in
          let step : write_item db r.id f item s
              ≡ (commit_reserved_usage db r.id >>= commit_answer db item) s' =
            ground (arith, e, same) in
          rw step (
            commit_answer-WritesItem s' (commit_reserved_usage db r.id s') v' (w' ∙ w)
              (commit_reserved_usage-CommitsAll db r.id r s' found))
      after_add s (raised repository_error, s') e clean w (v, w') =
          let step : write_item db r.id f item s
              ≡ (release_reserved_usage db r.id >>= release_answer db) s' =
            ground (arith, e) in
          rw step (
            release_answer-WritesItem s' (release_reserved_usage db r.id s') (w' ∙ w)
              (release_reserved_usage_outcome db r.id s' (v ∙ sym w')))
      after_add s (raised other, s') e clean w h = elim h [ ]

      -- From a session that has the reservation `r` saved, and nothing pending.
      pub write_item-WritesItem :
          (s : State)
          → IsClean db s
          → saved s ≡ insert_reservation r t
          → WritesItem r f item t (write_item db r.id f item s)
      unfolding add_item
      write_item-WritesItem s clean w =
          after_add s (add_item db f item s) refl clean w (insert_attempt db f item s)
