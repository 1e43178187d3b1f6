-- ===== src/Billing/Entitlements.antt =====
-- app/db/repositories/feature_entitlement.py: the queries and writes of `feature_entitlement`.
use fastapi.Prelude.{
  ℕ, String, Bool, true, Option, none, some, List, [], ◌∷◌, ◌++◌, ◌+◌, ◌&&◌, str_eq, leb, ◌==◌,
  filter, find_max, update_where, sort_by,
}
use fastapi.Prelude.Int.{ℤ, pos, sub_ℕ, ◌+ℤ◌}
use fastapi.Exec.{Exec, pure, raise, repository_error, try_except, ◌>>=◌, ◌>>◌}
use fastapi.Db.{
  Session, Tables, FeatureEntitlement, is_status_active, clock, select, write, perform, roll_back,
  next_id, flush_call, commit_call, refresh_call,
}

-- `(valid_from IS NULL) | (valid_from <= now)`
abbrev pub has_begun : ℕ → Option ℕ → Bool
has_begun now none = true
has_begun now (some t) = leb t now

-- `(valid_until IS NULL) | (valid_until >= now)`
abbrev pub has_not_ended : ℕ → Option ℕ → Bool
has_not_ended now none = true
has_not_ended now (some t) = leb now t

-- The `WHERE` clauses that two queries share.
abbrev pub is_usable : ℕ → String → ℕ → FeatureEntitlement → Bool
is_usable account_id resource_key now e =
    e.account_id == account_id
    && (str_eq e.resource_key resource_key
        && (is_status_active e.status
            && (has_begun now e.valid_from && has_not_ended now e.valid_until)))

unfoldable pub usable_entitlement : ℕ → String → ℕ → Tables → Option FeatureEntitlement
usable_entitlement account_id resource_key now t =
    find_max (λ e. e.id) (filter (is_usable account_id resource_key now) t.entitlements)

-- `entitlement.units_total - entitlement.units_used`
abbrev pub remaining : FeatureEntitlement → ℤ
remaining e = sub_ℕ e.units_total e.units_used

unfoldable pub sum_remaining : List FeatureEntitlement → ℤ
sum_remaining [] = pos 0
sum_remaining (e ∷ es) = remaining e +ℤ sum_remaining es

-- The assignments of `update_entitlement_usage`, in the row with this key.
unfoldable pub charge_entitlement : ℕ → ℕ → ℕ → Tables → Tables
charge_entitlement id units_delta now t = record t {
  entitlements =
      update_where (λ e. e.id == id)
        (λ e. record e { units_used = e.units_used + units_delta; updated_at = now })
        t.entitlements;
}

unfoldable pub insert_entitlement : FeatureEntitlement → Tables → Tables
insert_entitlement e t = record t { entitlements = t.entitlements ++ e ∷ [] }

module _ (db : Session) where
  open db use {State}

  unfoldable pub get_active_entitlement_for_update :
      ℕ → String → Exec State (Option FeatureEntitlement)
  get_active_entitlement_for_update account_id resource_key = do
    now ← clock db
    select db (usable_entitlement account_id resource_key now)

  unfoldable pub create_feature_entitlement : FeatureEntitlement → Exec State FeatureEntitlement
  create_feature_entitlement entitlement =
      try_except
        (do
          id ← next_id db
          write db (insert_entitlement (record entitlement { id = id }))
          perform db commit_call
          perform db refresh_call
          pure (record entitlement { id = id }))
        (do roll_back db; raise repository_error)

  unfoldable pub list_account_entitlements : ℕ → Exec State (List FeatureEntitlement)
  list_account_entitlements account_id = select db (λ t.
      sort_by (λ a b. leb b.id a.id) (filter (λ e. e.account_id == account_id) t.entitlements))

  unfoldable pub update_entitlement_usage : FeatureEntitlement → ℕ → Exec State FeatureEntitlement
  update_entitlement_usage entitlement units_delta =
      try_except
        (do
          now ← clock db
          write db (charge_entitlement entitlement.id units_delta now)
          perform db flush_call
          pure (record entitlement {
            units_used = entitlement.units_used + units_delta;
            updated_at = now;
          }))
        (do roll_back db; raise repository_error)

  unfoldable pub sum_remaining_units : ℕ → String → Exec State ℤ
  sum_remaining_units account_id resource_key = do
    now ← clock db
    select db (λ t. sum_remaining (filter (is_usable account_id resource_key now) t.entitlements))
