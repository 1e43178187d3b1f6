-- ===== src/Billing/Grants.antt =====
-- app/services/billing_service.py: grants, listings and balances.
use fastapi.Prelude.{ℕ, String, Option, some, List, if◌then◌else◌}
use fastapi.Prelude.Int.{ℤ, pos, leb_ℤ, pos_part}
use fastapi.Exec.{Exec, pure, ◌>>=◌, ServiceResult, success, failure, billing_invalid_entitlement}
use fastapi.Db.{Session, FeatureEntitlement, UsageEvent, active, clock}
use fastapi.Billing.Entitlements.{
  create_feature_entitlement, list_account_entitlements, sum_remaining_units,
}
use fastapi.Billing.Usage.{
  UsageFilter, list_filtered_account_usage_events, count_filtered_account_usage_events,
}
use fastapi.Billing.Enforcement.{or_internal_error}

module _ (db : Session) where
  open db use {State}

  -- `units_total` is any integer; past the guard it is positive.
  unfoldable pub grant_entitlement :
      ℕ
      → String
      → ℤ
      → String
      → Option String
      → Option ℕ
      → Exec State (ServiceResult FeatureEntitlement)
  grant_entitlement account_id resource_key units_total source_type source_id valid_until =
      if leb_ℤ units_total (pos 0) then pure (failure billing_invalid_entitlement) else do
        now ← clock db
        updated_at ← clock db
        or_internal_error (do
          created ← create_feature_entitlement db (record {
            id = 0;
            account_id = account_id;
            resource_key = resource_key;
            units_total = pos_part units_total;
            units_used = 0;
            status = active;
            valid_from = some now;
            valid_until = valid_until;
            source_type = source_type;
            source_id = source_id;
            updated_at = updated_at;
          })
          pure (success created))

  unfoldable pub list_entitlements : ℕ → Exec State (ServiceResult (List FeatureEntitlement))
  unfolding list_account_entitlements
  list_entitlements account_id = do
    entitlements ← list_account_entitlements db account_id
    pure (success entitlements)

  unfoldable pub list_usage :
      ℕ → UsageFilter → String → ℕ → ℕ → Exec State (ServiceResult (List UsageEvent × ℕ))
  unfolding list_filtered_account_usage_events count_filtered_account_usage_events
  list_usage account_id f sort offset limit = do
    usage_events ← list_filtered_account_usage_events db account_id f sort offset limit
    total_count ← count_filtered_account_usage_events db account_id f
    pure (success (usage_events, total_count))

  unfoldable pub get_balance : ℕ → String → Exec State (ServiceResult ℤ)
  unfolding sum_remaining_units
  get_balance account_id resource_key = do
    units ← sum_remaining_units db account_id resource_key
    pure (success units)
