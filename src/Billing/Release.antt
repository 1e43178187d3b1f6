-- ===== src/Billing/Release.antt =====
-- What releasing a reservation does to the saved rows.
use fastapi.Prelude.{ℕ, ◌≡◌, sym, ap, ◌∙◌, inl, inr, Bool-cases, Option, none, some, true, arith}
use fastapi.Exec.{Outcome, returned, raised, ServiceResult, success, failure}
use fastapi.Db.{
  Session, UsageReservation, is_status_active, is_status_active→eq, released, active, IsClean,
}
use fastapi.Db.Attempt.{after_select}
use fastapi.Billing.Reservations.{
  reservation_by_id, set_reservation_status, mark_reservation_status,
  get_reservation_by_id_for_update,
}
use fastapi.Billing.Effects.{mark_reservation_status-Attempts}
use fastapi.Billing.Enforcement.{release_found, release_reserved_usage}

module _ (db : Session) where
  open db use {State, view, saved, now}

  abbrev pub ReleaseOutcome : ℕ → State → Outcome (ServiceResult (Unit {0})) × State → Type 0
  ReleaseOutcome id s (returned (success _), s') =
      (r : UsageReservation) × (u : ℕ) × (reservation_by_id id (saved s) ≡ some r)
      × (r.status ≡ active)
      × (saved s' ≡ set_reservation_status r.id released u (saved s))
  ReleaseOutcome id s (returned (failure _), s') = saved s' ≡ saved s
  ReleaseOutcome id s (raised _, s') = saved s' ≡ saved s

  -- The outcome of releasing `r` at the time `u`.
  abbrev Releases :
      UsageReservation → ℕ → State → Outcome (ServiceResult (Unit {0})) × State → Type 0
  Releases r u s (returned (success _), s') =
      saved s' ≡ set_reservation_status r.id released u (view s)
  Releases r u s (returned (failure _), s') = saved s' ≡ saved s
  Releases r u s (raised _, s') = saved s' ≡ saved s

  release_active-Releases :
      (r : UsageReservation) (s : State)
      → is_status_active r.status ≡ true
      → Releases r (now s).0 s (release_found db (some r) s)
  unfolding release_found
  release_active-Releases r s act =
      let s' = (mark_reservation_status db r released s).1 in
      ground (
        arith,
        mark_reservation_status-Attempts db r released s,
        db.saved-commit s',
        db.saved-commit_raised s',
      )

  ReleaseOutcome-intro :
      (id : ℕ) (r : UsageReservation) (u : ℕ) (s : State)
      (o : Outcome (ServiceResult (Unit {0})) × State)
      → reservation_by_id id (saved s) ≡ some r
      → r.status ≡ active
      → Releases r u s o
      → IsClean db s
      → ReleaseOutcome id s o
  ReleaseOutcome-intro id r u s (returned (success _), s') found act h clean =
      (r, u, found, act, h ∙ ap (set_reservation_status r.id released u) clean)
  ReleaseOutcome-intro id r u s (returned (failure _), s') found act h clean = h
  ReleaseOutcome-intro id r u s (raised _, s') found act h clean = h

  release_found_outcome :
      (id : ℕ) (found : Option UsageReservation) (s s' : State)
      → reservation_by_id id (saved s) ≡ found
      → IsClean db s
      → view s' ≡ view s
      → saved s' ≡ saved s
      → ReleaseOutcome id s (release_found db found s')
  release_found_outcome id none s s' e clean v w = unfold release_found in w
  release_found_outcome id (some r) s s' e clean v w =
      elim (Bool-cases (is_status_active r.status)) [
        | inl act ↦
            ReleaseOutcome-intro id r (now s').0 s (release_found db (some r) s') e
              (is_status_active→eq r.status act)
              (ground (arith, release_active-Releases r s' act, v, w)) clean
        | inr settled_before ↦ unfold release_found in ground arith
      ]

  -- From a clean session, a release that succeeds has found the reservation active and has saved
  -- only its new status; any other outcome leaves every saved row as it was.
  pub release_reserved_usage_outcome :
      (id : ℕ) (s : State) → IsClean db s → ReleaseOutcome id s (release_reserved_usage db id s)
  unfolding release_reserved_usage get_reservation_by_id_for_update
  release_reserved_usage_outcome id s clean =
      after_select db (ReleaseOutcome id s) (reservation_by_id id) (release_found db) s
        (λ s' v w.
          release_found_outcome id (reservation_by_id id (view s)) s s'
            (ap (reservation_by_id id) (sym clean)) clean v w)
        (λ s' w. w)
