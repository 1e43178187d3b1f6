-- ===== src/Billing/Pending.antt =====
-- `commit_reserved_usage` in a session that has changes of its own caller pending: they are saved with
-- the charge, or not at all.
use fastapi.Prelude.{ℕ, ◌≡◌, ap, ◌∙◌, inl, inr, some, arith, Bool-cases}
use fastapi.Exec.{Outcome, returned, raised, ServiceResult, success, failure}
use fastapi.Db.{Session, UsageReservation, UsageEvent, is_status_active, is_status_active→eq}
use fastapi.Db.Attempt.{after_select}
use fastapi.Billing.Reservations.{reservation_by_id, get_reservation_by_id_for_update}
use fastapi.Billing.Enforcement.{commit_found, commit_reserved_usage}
use fastapi.Billing.Settlement.{Commits, commit_active-Commits, settled, IsEventOf}

module _ (db : Session) where
  open db use {State, view, saved}

  -- A success saves the charge on top of all that the session shows.
  abbrev pub CommitsAll :
      UsageReservation → State → Outcome (ServiceResult UsageEvent) × State → Type 0
  CommitsAll r s (returned (success ev), s') =
      IsEventOf r ev × ((t : ℕ) × ((u : ℕ) × (saved s' ≡ settled r ev t u (view s))))
  CommitsAll r s (returned (failure _), s') = saved s' ≡ saved s
  CommitsAll r s (raised _, s') = saved s' ≡ saved s

  CommitsAll-intro :
      (r : UsageReservation) (q t u : ℕ) (s s1 : State)
      (o : Outcome (ServiceResult UsageEvent) × State)
      → view s1 ≡ view s
      → saved s1 ≡ saved s
      → Commits db r q t u s1 o
      → CommitsAll r s o
  CommitsAll-intro r q t u s s1 (returned (success ev), s') v w (drawn, fit, h) =
      (fit, (t, (u, h ∙ ap (settled r ev t u) v)))
  CommitsAll-intro r q t u s s1 (returned (failure _), s') v w h = h ∙ w
  CommitsAll-intro r q t u s s1 (raised _, s') v w h = h ∙ w

  commit_found-CommitsAll :
      (r : UsageReservation) (s s1 : State)
      → view s1 ≡ view s
      → saved s1 ≡ saved s
      → CommitsAll r s (commit_found db (some r) s1)
  unfolding commit_found
  commit_found-CommitsAll r s s1 v w = elim (Bool-cases (is_status_active r.status)) [
    | inl act ↦
        let (q, t, u, h) = commit_active-Commits db r s1 (is_status_active→eq r.status act) in
        CommitsAll-intro r q t u s s1 (commit_found db (some r) s1) v w h
    | inr settled_before ↦ ground (arith, w, settled_before)
  ]

  pub commit_reserved_usage-CommitsAll :
      (id : ℕ) (r : UsageReservation) (s : State)
      → reservation_by_id id (view s) ≡ some r
      → CommitsAll r s (commit_reserved_usage db id s)
  unfolding commit_reserved_usage get_reservation_by_id_for_update
  commit_reserved_usage-CommitsAll id r s found =
      after_select db (CommitsAll r s) (reservation_by_id id) (commit_found db) s
        (λ s1 v w. rw found (commit_found-CommitsAll r s s1 v w)) (λ s1 w. w)
