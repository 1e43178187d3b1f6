-- ===== src/Billing/GrantEffect.antt =====
-- What granting an entitlement does to the saved rows.
use fastapi.Prelude.{
  ℕ, String, ◌≡◌, refl, sym, ap, ◌∙◌, Option, none, some, false, arith, find, ◌==◌, ◌<◌, ◌⊎◌,
  Bool-cases, inl, inr,
}
use fastapi.Prelude.Int.{ℤ, pos, pos_part, leb_ℤ}
use fastapi.Exec.{
  Outcome, returned, raised, ServiceResult, success, failure, billing_invalid_entitlement,
  common_internal_error,
}
use fastapi.Db.{Session, Tables, FeatureEntitlement, IsClean, commit_call, refresh_call, active}
use fastapi.Billing.Entitlements.{insert_entitlement, create_feature_entitlement}
use fastapi.Billing.Grants.{grant_entitlement}

-- `e` is an unused, active entitlement to `units_total` units of the resource.
pub record IsGrantOf (account_id : ℕ) (resource_key : String) (units_total : ℤ)
    (valid_until : Option ℕ) (e : FeatureEntitlement) : Type 0 where
  pub account : e.account_id ≡ account_id
  pub resource : e.resource_key ≡ resource_key
  pub total : pos e.units_total ≡ units_total
  pub some_units : 0 < e.units_total
  pub unused : e.units_used ≡ 0
  pub status : e.status ≡ active
  pub until : e.valid_until ≡ valid_until

module _ (db : Session) (account_id : ℕ) (resource_key : String) (units_total : ℤ)
    (source_type : String) (source_id : Option String) (valid_until : Option ℕ) where
  open db use {State, view, saved, now, serial, stage, call}

  -- The outcome of storing `e`: a refresh that raises after the commit fails the call, and leaves
  -- `e` saved.
  abbrev Stores :
      FeatureEntitlement → State → Outcome (ServiceResult FeatureEntitlement) × State → Type 0
  Stores e s (returned (success x), s') = (x ≡ e) × (saved s' ≡ insert_entitlement e (view s))
  Stores e s (returned (failure c), s') =
      (saved s' ≡ saved s)
      ⊎ ((c ≡ common_internal_error) × (saved s' ≡ insert_entitlement e (view s)))
  Stores e s (raised _, s') = ⊥

  -- The row that a grant stores, from the states in which it reads the clock and the next key.
  abbrev granted : State → FeatureEntitlement
  granted s =
      let s1 = (now s).1 in
      record {
        id = serial (now s1).1;
        account_id = account_id;
        resource_key = resource_key;
        units_total = pos_part units_total;
        units_used = 0;
        status = active;
        valid_from = some (now s).0;
        valid_until = valid_until;
        source_type = source_type;
        source_id = source_id;
        updated_at = (now s1).0;
      }

  store-Stores :
      (s : State)
      → leb_ℤ units_total (pos 0) ≡ false
      → Stores (granted s) s (
          grant_entitlement db account_id resource_key units_total source_type source_id valid_until
            s)
  unfolding grant_entitlement create_feature_entitlement
  store-Stores s positive =
      let s1 = (now s).1 in
      let s2 = (now s1).1 in
      let s3 = stage (insert_entitlement (granted s)) s2 in
      let s4 = (call commit_call s3).1 in
      let s5 = (call refresh_call s4).1 in
      ground (
        arith,
        positive,
        db.view-now s,
        db.saved-now s,
        db.view-now s1,
        db.saved-now s1,
        db.view-stage (insert_entitlement (granted s)) s2,
        db.saved-stage (insert_entitlement (granted s)) s2,
        db.view-call commit_call s3,
        db.saved-commit s3,
        db.saved-commit_raised s3,
        db.saved-refresh s4,
        db.saved-rollback s4,
        db.saved-rollback s5,
      )

  -- What a caller of `grant_entitlement` may rely on.
  abbrev pub GrantOutcome : State → Outcome (ServiceResult FeatureEntitlement) × State → Type 0
  GrantOutcome s (returned (success e), s') =
      IsGrantOf account_id resource_key units_total valid_until e
      × (find (λ x. x.id == e.id) (saved s).entitlements ≡ none)
      × (saved s' ≡ insert_entitlement e (saved s))
  GrantOutcome s (returned (failure c), s') =
      (saved s' ≡ saved s)
      ⊎ ((e : FeatureEntitlement) × (c ≡ common_internal_error)
          × IsGrantOf account_id resource_key units_total valid_until e
          × (find (λ x. x.id == e.id) (saved s).entitlements ≡ none)
          × (saved s' ≡ insert_entitlement e (saved s)))
  GrantOutcome s (raised _, s') = saved s' ≡ saved s

  granted-IsGrantOf :
      (s : State)
      → leb_ℤ units_total (pos 0) ≡ false
      → IsGrantOf account_id resource_key units_total valid_until (granted s)
  granted-IsGrantOf s positive = record {
    account = refl;
    resource = refl;
    total = ground (arith, positive);
    some_units = ground (arith, positive);
    unused = refl;
    status = refl;
    until = refl;
  }

  granted-new :
      (s : State) → IsClean db s → find (λ x. x.id == (granted s).id) (saved s).entitlements ≡ none
  granted-new s clean =
      let s1 = (now s).1 in
      let s2 = (now s1).1 in
      let same : view s2 ≡ saved s = db.view-now s1 ∙ db.view-now s ∙ clean in
      ap (λ (t : Tables). find (λ x. x.id == serial s2) t.entitlements) (sym same)
      ∙ db.serial-entitlement s2

  GrantOutcome-intro :
      (e : FeatureEntitlement) (s : State) (o : Outcome (ServiceResult FeatureEntitlement) × State)
      → IsGrantOf account_id resource_key units_total valid_until e
      → find (λ x. x.id == e.id) (saved s).entitlements ≡ none
      → IsClean db s
      → Stores e s o
      → GrantOutcome s o
  GrantOutcome-intro e s (returned (success x), s') fit new clean (same, h) =
      rw same (fit, new, h ∙ ap (insert_entitlement e) clean)
  GrantOutcome-intro e s (returned (failure c), s') fit new clean (inl h) = inl h
  GrantOutcome-intro e s (returned (failure c), s') fit new clean (inr (code, h)) =
      inr (e, code, fit, new, h ∙ ap (insert_entitlement e) clean)
  GrantOutcome-intro e s (raised _, s') fit new clean h = absurd h

  -- From a clean session, a grant that succeeds was asked for a positive number of units, and saves
  -- one new entitlement to them, unused, under a new key. A grant that fails leaves every saved row
  -- as it was, except that with an internal error such an entitlement may have been saved: the
  -- refresh after the commit may raise.
  pub grant_entitlement_outcome :
      (s : State)
      → IsClean db s
      → GrantOutcome s (
          grant_entitlement db account_id resource_key units_total source_type source_id valid_until
            s)
  grant_entitlement_outcome s clean = elim (Bool-cases (leb_ℤ units_total (pos 0))) [
    | inl refused ↦
        let step : grant_entitlement db account_id resource_key units_total source_type source_id
              valid_until s
            ≡ (returned (failure billing_invalid_entitlement), s) =
          unfold grant_entitlement in ground (arith, refused) in
        rw step (inl refl)
    | inr positive ↦
        GrantOutcome-intro (granted s) s
          (grant_entitlement db account_id resource_key units_total source_type source_id
            valid_until s)
          (granted-IsGrantOf s positive) (granted-new s clean) clean (store-Stores s positive)
  ]
