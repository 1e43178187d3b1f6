-- ===== src/Billing/Reserve.antt =====
-- What reserving units of a feature does to the saved rows.
use fastapi.Prelude.{ℕ, String, ◌≡◌, ◌≤◌, ◌+◌, refl, sym, ap, ◌∙◌, Option, none, some, false, arith}
use fastapi.Prelude.Int.{pos, ltb_ℤ}
use fastapi.Exec.{Outcome, returned, raised, ServiceResult, success, failure}
use fastapi.Db.{
  Session, FeatureEntitlement, UsageReservation, active, commit_call, IsClean, minutes,
}
use fastapi.Db.Attempt.{after_select}
use fastapi.Billing.Entitlements.{remaining, usable_entitlement, get_active_entitlement_for_update}
use fastapi.Billing.Reservations.{reservation_by_id, insert_reservation, create_usage_reservation}
use fastapi.Billing.Effects.{create_usage_reservation-Attempts}
use fastapi.Billing.Enforcement.{
  Policy, get_policy, feature_policies, is_past, store_reservation, reserve_from, reserve_with,
  reserve_feature_usage,
}

-- `r` is an active reservation of the policy's units, drawn on `e`, for the request.
pub record IsReservationOf (account_id : ℕ) (feature_key request_id : String) (p : Policy)
    (e : FeatureEntitlement) (r : UsageReservation) : Type 0 where
  pub account : r.account_id ≡ account_id
  pub entitlement : r.entitlement_id ≡ e.id
  pub resource : r.resource_key ≡ p.resource_key
  pub feature : r.feature_key ≡ feature_key
  pub request : r.request_id ≡ request_id
  pub units : r.units_reserved ≡ p.units_per_call
  pub status : r.status ≡ active

module _ (db : Session) (account_id : ℕ) (feature_key : String) (user_id : Option ℕ)
    (request_id : String) where
  open db use {State, view, saved, now, serial}

  -- The outcome of a reservation under the policy `p` at the time `now`.
  abbrev Reserves :
      Policy
      → FeatureEntitlement
      → State
      → Outcome (ServiceResult UsageReservation) × State
      → Type 0
  Reserves p e s (returned (success r), s') =
      IsReservationOf account_id feature_key request_id p e r
      × (e.units_used + p.units_per_call ≤ e.units_total)
      × (reservation_by_id r.id (view s) ≡ none)
      × (saved s' ≡ insert_reservation r (view s))
      × IsClean db s'
  Reserves p e s (returned (failure _), s') = saved s' ≡ saved s
  Reserves p e s (raised _, s') = saved s' ≡ saved s

  store_reservation-Reserves :
      (p : Policy) (e : FeatureEntitlement) (s : State)
      → e.units_used + p.units_per_call ≤ e.units_total
      → Reserves p e s (store_reservation db account_id feature_key user_id request_id p e s)
  unfolding store_reservation reservation_by_id
  store_reservation-Reserves p e s room =
      let s1 = (now s).1 in
      let s2 = (now s1).1 in
      let r : UsageReservation = record {
        id = 0;
        account_id = account_id;
        entitlement_id = e.id;
        user_id = user_id;
        resource_key = p.resource_key;
        feature_key = feature_key;
        units_reserved = p.units_per_call;
        request_id = request_id;
        status = active;
        expires_at = (now s).0 + minutes 5;
        updated_at = (now s1).0;
      } in
      let s3 = (create_usage_reservation db r s2).1 in
      ground (
        arith,
        db.view-now s,
        db.saved-now s,
        db.view-now s1,
        db.saved-now s1,
        db.serial-reservation s2,
        create_usage_reservation-Attempts db r s2,
        db.view-call commit_call s3,
        db.saved-commit s3,
        db.saved-commit_raised s3,
      )

  -- `is_past` moves at most the clock.
  is_past_state :
      (until : Option ℕ) (s : State)
      → (view (is_past db until s).1 ≡ view s) × (saved (is_past db until s).1 ≡ saved s)
  unfolding is_past
  is_past_state none s = (refl, refl)
  is_past_state (some t) s = ground (arith, db.view-now s, db.saved-now s)

  enough_left :
      (p : Policy) (e : FeatureEntitlement)
      → ltb_ℤ (remaining e) (pos p.units_per_call) ≡ false
      → e.units_used + p.units_per_call ≤ e.units_total
  enough_left p e h = ground arith

  reserve_some-Reserves :
      (p : Policy) (e : FeatureEntitlement) (s : State)
      → Reserves p e s (reserve_from db account_id feature_key user_id request_id p (some e) s)
  unfolding reserve_from is_past
  reserve_some-Reserves p e s = ground (
    arith,
    enough_left p e,
    store_reservation-Reserves p e s,
    store_reservation-Reserves p e (now s).1,
    db.view-now s,
    db.saved-now s,
  )

  -- What a caller of `reserve_feature_usage` may rely on.
  abbrev pub ReserveOutcome : State → Outcome (ServiceResult UsageReservation) × State → Type 0
  ReserveOutcome s (returned (success r), s') =
      (p : Policy) × (e : FeatureEntitlement) × (t : ℕ) × (get_policy feature_policies feature_key
        ≡ some p)
      × (usable_entitlement account_id p.resource_key t (saved s) ≡ some e)
      × (e.units_used + p.units_per_call ≤ e.units_total)
      × IsReservationOf account_id feature_key request_id p e r
      × (reservation_by_id r.id (saved s) ≡ none)
      × (saved s' ≡ insert_reservation r (saved s))
      × IsClean db s'
  ReserveOutcome s (returned (failure _), s') = saved s' ≡ saved s
  ReserveOutcome s (raised _, s') = saved s' ≡ saved s

  ReserveOutcome-intro :
      (p : Policy) (e : FeatureEntitlement) (t : ℕ) (s : State)
      (o : Outcome (ServiceResult UsageReservation) × State)
      → get_policy feature_policies feature_key ≡ some p
      → usable_entitlement account_id p.resource_key t (saved s) ≡ some e
      → Reserves p e s o
      → IsClean db s
      → ReserveOutcome s o
  ReserveOutcome-intro p e t s (returned (success r), s') known found (fit, room, new, h, c) clean =
      (
        p,
        e,
        t,
        known,
        found,
        room,
        fit,
        ap (reservation_by_id r.id) (sym clean) ∙ new,
        h ∙ ap (insert_reservation r) clean,
        c,
      )
  ReserveOutcome-intro p e t s (returned (failure _), s') known found h clean = h
  ReserveOutcome-intro p e t s (raised _, s') known found h clean = h

  reserve_from_outcome :
      (p : Policy) (found : Option FeatureEntitlement) (t : ℕ) (s s' : State)
      → get_policy feature_policies feature_key ≡ some p
      → usable_entitlement account_id p.resource_key t (saved s) ≡ found
      → IsClean db s
      → view s' ≡ view s
      → saved s' ≡ saved s
      → ReserveOutcome s (reserve_from db account_id feature_key user_id request_id p found s')
  reserve_from_outcome p none t s s' known e clean v w = unfold reserve_from in w
  reserve_from_outcome p (some ent) t s s' known e clean v w =
      ReserveOutcome-intro p ent t s
        (reserve_from db account_id feature_key user_id request_id p (some ent) s') known e
        (ground (arith, reserve_some-Reserves p ent s', v, w)) clean

  reserve_with_outcome :
      (known : Option Policy) (s : State)
      → get_policy feature_policies feature_key ≡ known
      → IsClean db s
      → ReserveOutcome s (reserve_with db account_id feature_key user_id request_id known s)
  unfolding reserve_with get_active_entitlement_for_update
  reserve_with_outcome none s known clean = refl
  reserve_with_outcome (some p) s known clean =
      let s1 = (now s).1 in
      let find_usable = usable_entitlement account_id p.resource_key (now s).0 in
      after_select db (ReserveOutcome s) find_usable
        (reserve_from db account_id feature_key user_id request_id p) s1
        (λ s' v w.
          reserve_from_outcome p (find_usable (view s1)) (now s).0 s s' known
            (ap find_usable (sym (db.view-now s ∙ clean))) clean (v ∙ db.view-now s)
            (w ∙ db.saved-now s))
        (λ s' w. w ∙ db.saved-now s)

  -- From a clean session, a reservation that succeeds names a feature with a policy, has found a
  -- usable entitlement with at least the policy's units left, and has saved one new active
  -- reservation drawn on it, no unit being used yet. Any other outcome leaves every saved row as it
  -- was.
  pub reserve_feature_usage_outcome :
      (s : State)
      → IsClean db s
      → ReserveOutcome s (reserve_feature_usage db account_id feature_key user_id request_id s)
  unfolding reserve_feature_usage
  reserve_feature_usage_outcome s clean =
      reserve_with_outcome (get_policy feature_policies feature_key) s refl clean
