-- ===== src/Billing/Settlement.antt =====
-- What committing, releasing and reserving do to the saved rows.
use fastapi.Prelude.{
  Bool, ℕ, ◌≡◌, refl, sym, ap, ◌∙◌, inl, inr, Bool-cases, ==→eq, ◌==◌, Option, none, some, true,
  false, arith,
}
use fastapi.Exec.{Outcome, returned, raised, ServiceResult, success, failure}
use fastapi.Db.{
  Session, Tables, FeatureEntitlement, UsageReservation, UsageEvent, is_status_active,
  is_status_active→eq, committed, active, IsClean, query_call,
}
use fastapi.Db.Attempt.{after_select}
use fastapi.Billing.Entitlements.{
  usable_entitlement, charge_entitlement, update_entitlement_usage,
  get_active_entitlement_for_update,
}
use fastapi.Billing.Reservations.{
  reservation_by_id, set_reservation_status, mark_reservation_status,
  get_reservation_by_id_for_update,
}
use fastapi.Billing.Usage.{insert_usage_event, create_usage_event}
use fastapi.Billing.Effects.{
  update_entitlement_usage-Attempts, mark_reservation_status-Attempts, create_usage_event-Attempts,
}
use fastapi.Billing.Enforcement.{
  charge_reservation, commit_reserved_usage, commit_found, commit_from,
}

-- The change that a commit of `r` makes, with the times and the event that it writes.
abbrev pub settled : UsageReservation → UsageEvent → ℕ → ℕ → Tables → Tables
settled r ev t u rows = insert_usage_event ev (
    set_reservation_status r.id committed u
      (charge_entitlement r.entitlement_id r.units_reserved t rows))

-- The entitlement that a commit of `r` finds at the time `q` is the one that `r` was drawn on.
unfoldable pub is_drawn_on : ℕ → UsageReservation → Tables → Bool
is_drawn_on q r rows = elim (usable_entitlement r.account_id r.resource_key q rows) [
  | none ↦ false
  | some e ↦ e.id == r.entitlement_id
]

-- The event of `r`.
pub record IsEventOf (r : UsageReservation) (ev : UsageEvent) : Type 0 where
  pub entitlement : ev.entitlement_id ≡ r.entitlement_id
  pub reservation : ev.reservation_id ≡ some r.id
  pub units : ev.units ≡ r.units_reserved
  pub status : ev.status ≡ committed

module _ (db : Session) where
  open db use {State, view, saved, now, call}

  -- The outcome of charging `r` at the times `t` and `u`.
  abbrev Settles :
      UsageReservation → ℕ → ℕ → State → Outcome (ServiceResult UsageEvent) × State → Type 0
  Settles r t u s (returned (success ev), s') =
      IsEventOf r ev × (saved s' ≡ settled r ev t u (view s))
  Settles r t u s (returned (failure _), s') = saved s' ≡ saved s
  Settles r t u s (raised _, s') = saved s' ≡ saved s

  charge_reservation-Settles :
      (r : UsageReservation) (e : FeatureEntitlement) (s : State)
      → e.id ≡ r.entitlement_id
      → let s' = (update_entitlement_usage db e r.units_reserved s).1 in
        Settles r (now s).0 (now s').0 s (charge_reservation db r e s)
  unfolding charge_reservation
  charge_reservation-Settles r e s same =
      let s1 = (update_entitlement_usage db e r.units_reserved s).1 in
      let s2 = (mark_reservation_status db r committed s1).1 in
      let s3 = (now s2).1 in
      let ev : UsageEvent = record {
        id = 0;
        account_id = r.account_id;
        entitlement_id = r.entitlement_id;
        reservation_id = some r.id;
        user_id = r.user_id;
        resource_key = r.resource_key;
        feature_key = r.feature_key;
        units = r.units_reserved;
        request_id = r.request_id;
        status = committed;
        created_at = (now s2).0;
      } in
      let s4 = (create_usage_event db ev s3).1 in
      ground (
        arith,
        update_entitlement_usage-Attempts db e r.units_reserved s,
        mark_reservation_status-Attempts db r committed s1,
        db.view-now s2,
        db.saved-now s2,
        create_usage_event-Attempts db ev s3,
        db.saved-commit s4,
        db.saved-commit_raised s4,
      )

  -- The outcome where the entitlement was read at the time `q`.
  abbrev pub Commits :
      UsageReservation → ℕ → ℕ → ℕ → State → Outcome (ServiceResult UsageEvent) × State → Type 0
  Commits r q t u s (returned (success ev), s') =
      (is_drawn_on q r (view s) ≡ true) × IsEventOf r ev × (saved s' ≡ settled r ev t u (view s))
  Commits r q t u s (returned (failure _), s') = saved s' ≡ saved s
  Commits r q t u s (raised _, s') = saved s' ≡ saved s

  commit_from-Commits :
      (r : UsageReservation) (found : Option FeatureEntitlement) (q : ℕ) (s : State)
      → usable_entitlement r.account_id r.resource_key q (view s) ≡ found
      → (t : ℕ) × (u : ℕ) × Commits r q t u s (commit_from db r found s)
  unfolding commit_from is_drawn_on
  commit_from-Commits r none q s e = (0, 0, refl)
  commit_from-Commits r (some ent) q s e =
      let s' = (update_entitlement_usage db ent r.units_reserved s).1 in
      (
        (now s).0,
        (now s').0,
        ground (arith, charge_reservation-Settles r ent s, ==→eq ent.id r.entitlement_id),
      )

  pub commit_active-Commits :
      (r : UsageReservation) (s : State)
      → r.status ≡ active
      → (q : ℕ) × (t : ℕ) × (u : ℕ) × Commits r q t u s (commit_found db (some r) s)
  unfolding commit_found get_active_entitlement_for_update
  commit_active-Commits r s is_active =
      let s1 = (now s).1 in
      let s2 = (call query_call s1).1 in
      let quiet : saved s2 ≡ saved s = db.saved-query s1 ∙ db.saved-now s in
      elim (Bool-cases (call query_call s1).0) [
        | inl done ↦
            let found = usable_entitlement r.account_id r.resource_key (now s).0 (view s2) in
            let (t, u, h) = commit_from-Commits r found (now s).0 s2 refl in
            ((now s).0, t, u, ground (arith, h, db.view-call query_call s1, db.view-now s))
        | inr broken ↦ (0, 0, 0, ground arith)
      ]

  -- What a caller of `commit_reserved_usage` may rely on.
  abbrev pub CommitOutcome : ℕ → State → Outcome (ServiceResult UsageEvent) × State → Type 0
  CommitOutcome id s (returned (success ev), s') =
      (r : UsageReservation) × (q : ℕ) × (t : ℕ) × (u : ℕ) × (reservation_by_id id (saved s)
        ≡ some r)
      × (r.status ≡ active)
      × (is_drawn_on q r (saved s) ≡ true)
      × IsEventOf r ev
      × (saved s' ≡ settled r ev t u (saved s))
  CommitOutcome id s (returned (failure _), s') = saved s' ≡ saved s
  CommitOutcome id s (raised _, s') = saved s' ≡ saved s

  CommitOutcome-intro :
      (id : ℕ) (r : UsageReservation) (q t u : ℕ) (s : State)
      (o : Outcome (ServiceResult UsageEvent) × State)
      → reservation_by_id id (saved s) ≡ some r
      → r.status ≡ active
      → Commits r q t u s o
      → IsClean db s
      → CommitOutcome id s o
  CommitOutcome-intro id r q t u s (returned (success ev), s') found act (drawn, h, k) clean = (
    r,
    q,
    t,
    u,
    found,
    act,
    ap (is_drawn_on q r) (sym clean) ∙ drawn,
    h,
    k ∙ ap (settled r ev t u) clean,
  )
  CommitOutcome-intro id r q t u s (returned (failure _), s') found act h clean = h
  CommitOutcome-intro id r q t u s (raised _, s') found act h clean = h

  -- The same for what `get_reservation_by_id_for_update` has found.
  commit_found_outcome :
      (id : ℕ) (found : Option UsageReservation) (s s' : State)
      → reservation_by_id id (saved s) ≡ found
      → IsClean db s
      → view s' ≡ view s
      → saved s' ≡ saved s
      → CommitOutcome id s (commit_found db found s')
  unfolding commit_found
  commit_found_outcome id none s s' e clean v w = w
  commit_found_outcome id (some r) s s' e clean v w =
      elim (Bool-cases (is_status_active r.status)) [
        | inl act ↦
            let (q, t, u, h) = commit_active-Commits r s' (is_status_active→eq r.status act) in
            CommitOutcome-intro id r q t u s (commit_found db (some r) s') e
              (is_status_active→eq r.status act) (ground (arith, h, v, w)) clean
        | inr settled_before ↦ ground arith
      ]

  -- From a clean session, a commit that succeeds has found the reservation active and its entitlement
  -- to be the one in use, and has saved exactly three changes together: the entitlement's
  -- `units_used` rises by the units reserved, the reservation is committed, and one usage event for
  -- those units is added. Any other outcome, exceptions included, leaves every saved row as it was.
  pub commit_reserved_usage_outcome :
      (id : ℕ) (s : State) → IsClean db s → CommitOutcome id s (commit_reserved_usage db id s)
  unfolding commit_reserved_usage get_reservation_by_id_for_update
  commit_reserved_usage_outcome id s clean =
      after_select db (CommitOutcome id s) (reservation_by_id id) (commit_found db) s
        (λ s' v w.
          commit_found_outcome id (reservation_by_id id (view s)) s s'
            (ap (reservation_by_id id) (sym clean)) clean v w)
        (λ s' w. w)
