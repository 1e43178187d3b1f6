-- ===== src/Billing/Tests.antt =====
-- Concrete tables and one instance of each theorem on metered features.
use fastapi.Prelude.{
  ℕ, ◌≡◌, ◌≢◌, refl, true, none, some, List, [], ◌∷◌, arith, find, update_where, find_max, filter,
  sum_by, ◌+◌, ◌<◌,
}
use fastapi.Prelude.Int.{pos}
use fastapi.Exec.{returned, pure, success}
use fastapi.Db.{Tables, FeatureEntitlement, UsageReservation, UsageEvent, IsClean, Status, active}
use fastapi.Db.Demo.{Demo, demo, calm}
use fastapi.Billing.Entitlements.{
  charge_entitlement, get_active_entitlement_for_update, usable_entitlement,
  update_entitlement_usage,
}
use fastapi.Billing.Reservations.{
  reservation_by_id, set_reservation_status, get_reservation_by_id_for_update,
  mark_reservation_status,
}
use fastapi.Billing.Usage.{UsageFilter, insert_usage_event, create_usage_event}
use fastapi.Billing.Enforcement.{
  commit_found, commit_from, charge_reservation, feature_policies, get_policy,
  reserve_feature_usage, commit_reserved_usage, release_reserved_usage, run_with_reserved_usage,
}
use fastapi.Billing.Grants.{grant_entitlement}
use fastapi.Billing.Settlement.{CommitOutcome, commit_reserved_usage_outcome}
use fastapi.Billing.Release.{ReleaseOutcome, release_reserved_usage_outcome}
use fastapi.Billing.Reserve.{ReserveOutcome, reserve_feature_usage_outcome}
use fastapi.Billing.GrantEffect.{GrantOutcome, grant_entitlement_outcome}
use fastapi.Billing.Ledger.{IsBalanced, units_used_of, rows_with, units_charged_to}
use fastapi.Billing.Books.{release, commit, Reaches, here, next, run_operation, Reaches-IsBalanced}
use fastapi.Billing.Lifecycle.{reservation_status}
use fastapi.Billing.Charges.{charges_of, Reaches-charged_once}
use fastapi.Billing.Run.{RunOutcome, run_with_reserved_usage_outcome}
use fastapi.Billing.Quota.{
  IsWithinQuota, units_total_of, run_with_reserved_usage-IsWithinQuota,
  overlapping_commits_overdraw,
}
use fastapi.Billing.Decisions.{answer, decision, answer-reserve_feature_usage}

abbrev plan : FeatureEntitlement
plan = record {
  id = 1;
  account_id = 7;
  resource_key = "item_create";
  units_total = 1;
  units_used = 0;
  status = active;
  valid_from = none;
  valid_until = none;
  source_type = "manual";
  source_id = none;
  updated_at = 0;
}

abbrev hold : ℕ → UsageReservation
hold id = record {
  id = id;
  account_id = 7;
  entitlement_id = 1;
  user_id = some 3;
  resource_key = "item_create";
  feature_key = "items.create";
  units_reserved = 1;
  request_id = "r";
  status = active;
  expires_at = 900_000_000;
  updated_at = 0;
}

abbrev held : List UsageReservation → Tables
held rs = record {
  accounts = [];
  users = [];
  entitlements = plan ∷ [];
  reservations = rs;
  usage_events = [];
  items = [];
  outbox_events = [];
  revoked_tokens = [];
}

-- A session on given rows; every call returns.
abbrev on : Tables → Demo
on t = record { view = t; saved = t; time = 10; script = [] }

abbrev fresh : Demo
fresh = on (held [])

abbrev two_held : Demo
two_held = on (held (hold 1 ∷ hold 2 ∷ []))

abbrev after_first : Demo
after_first = (commit_reserved_usage demo 1 two_held).1

commit_reserved_usage_outcome_example :
    CommitOutcome demo 1 two_held (commit_reserved_usage demo 1 two_held)
commit_reserved_usage_outcome_example = commit_reserved_usage_outcome demo 1 two_held refl

release_reserved_usage_outcome_example :
    ReleaseOutcome demo 2 two_held (release_reserved_usage demo 2 two_held)
release_reserved_usage_outcome_example = release_reserved_usage_outcome demo 2 two_held refl

reserve_feature_usage_outcome_example :
    ReserveOutcome demo 7 "items.create"
      (some 3)
      "r"
      fresh
      (reserve_feature_usage demo 7 "items.create" (some 3) "r" fresh)
reserve_feature_usage_outcome_example =
    reserve_feature_usage_outcome demo 7 "items.create" (some 3) "r" fresh refl

grant_entitlement_outcome_example :
    GrantOutcome demo 7 "service_a"
      (pos 5)
      "manual"
      none
      none
      fresh
      (grant_entitlement demo 7 "service_a" (pos 5) "manual" none none fresh)
grant_entitlement_outcome_example =
    grant_entitlement_outcome demo 7 "service_a" (pos 5) "manual" none none fresh refl

two_held-IsBalanced : IsBalanced (held (hold 1 ∷ hold 2 ∷ []))
unfolding rows_with units_used_of units_charged_to sum_by
two_held-IsBalanced = record { unique = λ id. ground arith; agrees = λ id. ground arith }

-- The rows after the second reservation is released.
abbrev released_rows : Tables
released_rows = (run_operation demo (release 2) two_held).saved

released_reached : Reaches demo (held (hold 1 ∷ hold 2 ∷ [])) released_rows
released_reached = next released_rows (release 2) two_held here refl refl refl

Reaches-IsBalanced_example : IsBalanced released_rows
Reaches-IsBalanced_example = Reaches-IsBalanced demo two_held-IsBalanced released_reached

released_not_active : Status.released ≢ active
released_not_active h = ground (arith, h)

abbrev given_back : Demo
given_back = on (held (hold 1 ∷ record (hold 2) { status = Status.released } ∷ []))

given_back_status : reservation_status 2 given_back.saved ≡ some Status.released
unfolding reservation_status reservation_by_id find
given_back_status = refl

Reaches-charged_once_example :
    let rows = (run_operation demo (commit 2) given_back).saved in
    (reservation_status 2 rows ≡ some Status.released)
    × (charges_of 2 rows ≡ charges_of 2 given_back.saved)
Reaches-charged_once_example =
    Reaches-charged_once demo 2 Status.released released_not_active given_back_status (
      next (run_operation demo (commit 2) given_back).saved (commit 2) given_back here refl refl
        refl)

run_with_reserved_usage_outcome_example :
    RunOutcome demo 7 "items.create"
      (some 3)
      "r"
      {A = ℕ}
      fresh
      (run_with_reserved_usage demo 7 "items.create" (some 3) "r" (pure 5) fresh)
run_with_reserved_usage_outcome_example =
    run_with_reserved_usage_outcome demo 7 "items.create" (some 3) "r" (pure 5) (λ s. (refl, refl))
      fresh refl

fresh-IsBalanced : IsBalanced (held [])
unfolding rows_with units_used_of units_charged_to sum_by
fresh-IsBalanced = record { unique = λ id. ground arith; agrees = λ id. ground arith }

fresh-IsWithinQuota : IsWithinQuota 1 (held [])
unfolding units_used_of units_total_of sum_by
fresh-IsWithinQuota = omega arith

run_with_reserved_usage-IsWithinQuota_example :
    IsWithinQuota 1
      (run_with_reserved_usage demo 7 "items.create" (some 3) "r" (pure {A = ℕ} 5) fresh).1.saved
run_with_reserved_usage-IsWithinQuota_example =
    run_with_reserved_usage-IsWithinQuota demo 7 "items.create" (some 3) "r" (pure 5)
      (λ s. (refl, refl)) fresh 1 refl fresh-IsBalanced fresh-IsWithinQuota

abbrev every_event : UsageFilter
every_event = record {
  resource_key = none;
  feature_key = none;
  status = none;
  created_after = none;
  created_before = none;
}

-- The rows after the first of the two reservations is committed.
abbrev one_event : Tables
one_event = after_first.saved

answer-reserve_feature_usage_example :
    answer (reserve_feature_usage calm 7 "items.create" (some 3) "r" fresh).0
    ≡ decision true 7 0 (held []) (get_policy feature_policies "items.create")
answer-reserve_feature_usage_example =
    answer-reserve_feature_usage calm 0 (λ c s. refl) (λ s. refl) 7 "items.create" (some 3) "r"
      fresh

-- Both commits succeed, and the second session begins clean.
first_commit : (v : UsageEvent) × ((commit_reserved_usage demo 1 two_held).0 ≡ returned (success v))
unfolding commit_reserved_usage commit_found commit_from charge_reservation
    get_reservation_by_id_for_update reservation_by_id find filter find_max
    get_active_entitlement_for_update usable_entitlement update_entitlement_usage charge_entitlement
    mark_reservation_status set_reservation_status update_where create_usage_event
    insert_usage_event sum_by
first_commit = (_, refl)

second_commit :
    (w : UsageEvent) × ((commit_reserved_usage demo 2 after_first).0 ≡ returned (success w))
unfolding commit_reserved_usage commit_found commit_from charge_reservation
    get_reservation_by_id_for_update reservation_by_id find filter find_max
    get_active_entitlement_for_update usable_entitlement update_entitlement_usage charge_entitlement
    mark_reservation_status set_reservation_status update_where create_usage_event
    insert_usage_event sum_by
second_commit = (_, refl)

after_first-IsClean : IsClean demo after_first
unfolding commit_reserved_usage commit_found commit_from charge_reservation
    get_reservation_by_id_for_update reservation_by_id find filter find_max
    get_active_entitlement_for_update usable_entitlement update_entitlement_usage charge_entitlement
    mark_reservation_status set_reservation_status update_where create_usage_event
    insert_usage_event sum_by
after_first-IsClean = refl

second_hold : reservation_by_id 2 after_first.saved ≡ some (hold 2)
unfolding commit_reserved_usage commit_found commit_from charge_reservation
    get_reservation_by_id_for_update reservation_by_id find filter find_max
    get_active_entitlement_for_update usable_entitlement update_entitlement_usage charge_entitlement
    mark_reservation_status set_reservation_status update_where create_usage_event
    insert_usage_event sum_by
second_hold = refl

first_hold : reservation_by_id 1 two_held.saved ≡ some (hold 1)
unfolding reservation_by_id find
first_hold = refl

last_unit :
    units_used_of 1 two_held.saved.entitlements + 1 ≡ units_total_of 1 two_held.saved.entitlements
unfolding units_used_of units_total_of sum_by
last_unit = refl

overlapping_commits_overdraw_example :
    let rows = (commit_reserved_usage demo 2 after_first).1.saved in
    units_total_of 1 rows.entitlements < units_used_of 1 rows.entitlements
overlapping_commits_overdraw_example =
    overlapping_commits_overdraw demo 1 2 two_held after_first (hold 1) (hold 2) refl
      after_first-IsClean two_held-IsBalanced refl first_hold second_hold refl (omega arith)
      last_unit first_commit.1 second_commit.1
