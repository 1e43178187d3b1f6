-- ===== src/Billing/Enforcement.antt =====
-- app/services/entitlement_service.py: reserve, commit and release units of a metered feature.
use fastapi.Prelude.{
  ℕ, String, Bool, false, Option, none, some, List, [], ◌∷◌, ◌+◌, ◌==◌, ltb, str_eq, if◌then◌else◌,
}
use fastapi.Prelude.Int.{pos, ltb_ℤ}
use fastapi.Exec.{
  Exec, returned, raised, raise, other, pure, try_repository, ◌>>=◌, ◌>>◌, ServiceResult, success,
  failure, billing_feature_not_enabled, billing_no_entitlement, billing_entitlement_expired,
  billing_quota_exhausted, billing_reservation_not_found, billing_invalid_reservation_state,
  common_internal_error,
}
use fastapi.Db.{
  Session, FeatureEntitlement, UsageReservation, UsageEvent, active, committed, released,
  is_status_active, minutes, clock, perform, commit_call,
}
use fastapi.Billing.Entitlements.{
  remaining, get_active_entitlement_for_update, update_entitlement_usage,
}
use fastapi.Billing.Reservations.{
  create_usage_reservation, get_reservation_by_id_for_update, mark_reservation_status,
}
use fastapi.Billing.Usage.{create_usage_event}

-- An entry of `FEATURE_POLICIES`; every entry charges on success.
pub record Policy : Type 0 where
  pub resource_key : String
  pub units_per_call : ℕ

abbrev pub one_unit_of : String → Policy
one_unit_of resource_key = record { resource_key = resource_key; units_per_call = 1 }

abbrev pub feature_policies : List (String × Policy)
feature_policies =
    ("items.create", one_unit_of "item_create")
    ∷ ("service_a.run", one_unit_of "service_a")
    ∷ ("items.archive", one_unit_of "item_archive")
    ∷ ("items.restore", one_unit_of "item_restore")
    ∷ []

unfoldable pub get_policy : List (String × Policy) → String → Option Policy
get_policy [] feature_key = none
get_policy ((k, p) ∷ rest) feature_key =
    if str_eq k feature_key then some p else get_policy rest feature_key

-- The check that the repository calls of one `try` block make the failure of an internal error.
abbrev pub or_internal_error : {S A : Type 0} → Exec S (ServiceResult A) → Exec S (ServiceResult A)
or_internal_error m = try_repository m (pure (failure common_internal_error))

module _ (db : Session) where
  open db use {State}

  -- `valid_until is not None and valid_until < datetime.now(UTC)`; Python refuses to compare a date
  -- without a time zone with one that has it.
  unfoldable pub is_past : Option ℕ → Exec State Bool
  is_past none = pure false
  is_past (some valid_until) = do
    now ← clock db
    if db.zoned then pure (ltb valid_until now) else raise other

  unfoldable pub store_reservation :
      ℕ
      → String
      → Option ℕ
      → String
      → Policy
      → FeatureEntitlement
      → Exec State (ServiceResult UsageReservation)
  store_reservation account_id feature_key user_id request_id policy entitlement = do
    now ← clock db
    created_at ← clock db
    or_internal_error (do
      created ← create_usage_reservation db (record {
        id = 0;
        account_id = account_id;
        entitlement_id = entitlement.id;
        user_id = user_id;
        resource_key = policy.resource_key;
        feature_key = feature_key;
        units_reserved = policy.units_per_call;
        request_id = request_id;
        status = active;
        expires_at = now + minutes 5;
        updated_at = created_at;
      })
      perform db commit_call
      pure (success created))

  unfoldable pub reserve_from :
      ℕ
      → String
      → Option ℕ
      → String
      → Policy
      → Option FeatureEntitlement
      → Exec State (ServiceResult UsageReservation)
  reserve_from account_id feature_key user_id request_id policy none =
      pure (failure billing_no_entitlement)
  reserve_from account_id feature_key user_id request_id policy (some entitlement) = do
    expired ← is_past entitlement.valid_until
    if expired
        then pure (failure billing_entitlement_expired)
        else if ltb_ℤ (remaining entitlement) (pos policy.units_per_call)
        then pure (failure billing_quota_exhausted)
        else store_reservation account_id feature_key user_id request_id policy entitlement

  unfoldable pub reserve_with :
      ℕ → String → Option ℕ → String → Option Policy → Exec State (ServiceResult UsageReservation)
  unfolding reserve_from
  reserve_with account_id feature_key user_id request_id none =
      pure (failure billing_feature_not_enabled)
  reserve_with account_id feature_key user_id request_id (some policy) = do
    entitlement ← get_active_entitlement_for_update db account_id policy.resource_key
    reserve_from account_id feature_key user_id request_id policy entitlement

  unfoldable pub reserve_feature_usage :
      ℕ → String → Option ℕ → String → Exec State (ServiceResult UsageReservation)
  unfolding reserve_with get_policy
  reserve_feature_usage account_id feature_key user_id request_id =
      reserve_with account_id feature_key user_id request_id
        (get_policy feature_policies feature_key)

  unfoldable pub charge_reservation :
      UsageReservation → FeatureEntitlement → Exec State (ServiceResult UsageEvent)
  charge_reservation reservation entitlement = or_internal_error (do
    update_entitlement_usage db entitlement reservation.units_reserved
    mark_reservation_status db reservation committed
    now ← clock db
    usage_event ← create_usage_event db (record {
      id = 0;
      account_id = reservation.account_id;
      entitlement_id = reservation.entitlement_id;
      reservation_id = some reservation.id;
      user_id = reservation.user_id;
      resource_key = reservation.resource_key;
      feature_key = reservation.feature_key;
      units = reservation.units_reserved;
      request_id = reservation.request_id;
      status = committed;
      created_at = now;
    })
    perform db commit_call
    pure (success usage_event))

  unfoldable pub commit_from :
      UsageReservation → Option FeatureEntitlement → Exec State (ServiceResult UsageEvent)
  unfolding charge_reservation
  commit_from reservation none = pure (failure billing_no_entitlement)
  commit_from reservation (some entitlement) =
      if entitlement.id == reservation.entitlement_id
      then charge_reservation reservation entitlement
      else pure (failure billing_no_entitlement)

  unfoldable pub commit_found : Option UsageReservation → Exec State (ServiceResult UsageEvent)
  unfolding commit_from
  commit_found none = pure (failure billing_reservation_not_found)
  commit_found (some reservation) =
      if is_status_active reservation.status
      then (do
        entitlement ←
            get_active_entitlement_for_update db reservation.account_id reservation.resource_key
        commit_from reservation entitlement)
      else pure (failure billing_invalid_reservation_state)

  unfoldable pub commit_reserved_usage : ℕ → Exec State (ServiceResult UsageEvent)
  unfolding commit_found
  commit_reserved_usage reservation_id = do
    reservation ← get_reservation_by_id_for_update db reservation_id
    commit_found reservation

  unfoldable pub release_found : Option UsageReservation → Exec State (ServiceResult (Unit {0}))
  release_found none = pure (failure billing_reservation_not_found)
  release_found (some reservation) =
      if is_status_active reservation.status
      then or_internal_error (do
        mark_reservation_status db reservation released
        perform db commit_call
        pure (success tt))
      else pure (failure billing_invalid_reservation_state)

  unfoldable pub release_reserved_usage : ℕ → Exec State (ServiceResult (Unit {0}))
  unfolding release_found
  release_reserved_usage reservation_id = do
    reservation ← get_reservation_by_id_for_update db reservation_id
    release_found reservation

  -- The end of `run_with_reserved_usage`: a commit that fails is the result.
  unfoldable pub settle_run : {A : Type 0} → ℕ → A → Exec State (ServiceResult A)
  settle_run reservation_id value = do
    committed_usage ← commit_reserved_usage reservation_id
    elim committed_usage [ success _ ↦ pure (success value) | failure code ↦ pure (failure code) ]

  -- `operation()` in its `try` block: what it raises is raised again after the release.
  unfoldable pub run_reserved :
      {A : Type 0} → Exec State A → ServiceResult UsageReservation → Exec State (ServiceResult A)
  run_reserved operation (failure code) s = (returned (failure code), s)
  run_reserved operation (success reservation) s =
      let (result, s') = operation s in
      elim result [
        | returned value ↦ settle_run reservation.id value s'
        | raised exception ↦ (release_reserved_usage reservation.id >> raise exception) s'
      ]

  unfoldable pub run_with_reserved_usage :
      {A : Type 0} → ℕ → String → Option ℕ → String → Exec State A → Exec State (ServiceResult A)
  unfolding run_reserved
  run_with_reserved_usage account_id feature_key user_id request_id operation = do
    reservation ← reserve_feature_usage account_id feature_key user_id request_id
    run_reserved operation reservation
