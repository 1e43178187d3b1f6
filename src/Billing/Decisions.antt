-- ===== src/Billing/Decisions.antt =====
-- The answer of `reserve_feature_usage` where the database answers and the clock stands still.
use fastapi.Prelude.{
  ℕ, String, ◌≡◌, ◌+◌, refl, ◌∙◌, Option, none, some, Bool, true, arith, ltb, if◌then◌else◌,
  Option-cases, inl, inr, find_max-filter-passes,
}
use fastapi.Exec.{
  Outcome, returned, raised, ServiceResult, success, failure, ErrorCode, Exception, other,
  billing_feature_not_enabled, billing_no_entitlement, billing_quota_exhausted,
}
use fastapi.Db.{
  Session, active, minutes, Tables, FeatureEntitlement, UsageReservation, Call, query_call,
  commit_call, flush_call, refresh_call,
}
use fastapi.Billing.Entitlements.{
  is_usable, usable_entitlement, get_active_entitlement_for_update, has_not_ended,
}
use fastapi.Billing.Reservations.{insert_reservation, create_usage_reservation}
use fastapi.Billing.Enforcement.{
  Policy, get_policy, feature_policies, is_past, store_reservation, reserve_from, reserve_with,
  reserve_feature_usage,
}

-- The error code of a result, `none` for a success.
pub data Answer : Type 0 where
  accepted : Answer
  refused : ErrorCode → Answer
  crashed : Exception → Answer

abbrev pub answer : {A : Type 0} → Outcome (ServiceResult A) → Answer
answer (returned (success _)) = accepted
answer (returned (failure code)) = refused code
answer (raised x) = crashed x

-- Whether a date can be compared with the time: one without a time zone cannot.
abbrev pub is_comparable : Bool → Option ℕ → Bool
is_comparable zoned none = true
is_comparable zoned (some _) = zoned

-- The decision, told by the rows `t` at the time `now`, and whether dates carry a time zone.
abbrev pub decision : Bool → ℕ → ℕ → Tables → Option Policy → Answer
decision zoned account_id now t none = refused billing_feature_not_enabled
decision zoned account_id now t (some p) =
    elim (usable_entitlement account_id p.resource_key now t) [
      | none ↦ refused billing_no_entitlement
      | some e ↦
          if is_comparable zoned e.valid_until
          then (if ltb e.units_total (e.units_used + p.units_per_call)
              then refused billing_quota_exhausted
              else accepted)
          else crashed other
    ]

usable-has_not_ended :
    (account_id : ℕ) (resource_key : String) (now : ℕ) (t : Tables) {e : FeatureEntitlement}
    → usable_entitlement account_id resource_key now t ≡ some e
    → has_not_ended now e.valid_until ≡ true
unfolding usable_entitlement
usable-has_not_ended account_id resource_key now t {e} h = ground (
  arith,
  find_max-filter-passes (λ x. x.id) (is_usable account_id resource_key now) t.entitlements {x = e}
      h,
)

module _ (db : Session) (t : ℕ) (answers : (c : Call) (s : db.State) → (db.call c s).0 ≡ true)
    (still : (s : db.State) → (db.now s).0 ≡ t) (account_id : ℕ) (feature_key : String)
    (user_id : Option ℕ) (request_id : String) where
  open db use {State, view, now, serial, stage, call}

  store_accepts :
      (p : Policy) (e : FeatureEntitlement) (s : State)
      → answer (store_reservation db account_id feature_key user_id request_id p e s).0 ≡ accepted
  unfolding store_reservation create_usage_reservation
  store_accepts p e s =
      let s2 = (now (now s).1).1 in
      let r : UsageReservation = record {
        id = serial s2;
        account_id = account_id;
        entitlement_id = e.id;
        user_id = user_id;
        resource_key = p.resource_key;
        feature_key = feature_key;
        units_reserved = p.units_per_call;
        request_id = request_id;
        status = active;
        expires_at = (now s).0 + minutes 5;
        updated_at = (now (now s).1).0;
      } in
      let s3 = stage (insert_reservation r) s2 in
      let s4 = (call flush_call s3).1 in
      let s5 = (call refresh_call s4).1 in
      ground (arith, answers flush_call s3, answers refresh_call s4, answers commit_call s5)

  answer-reserve_from :
      (p : Policy) (e : FeatureEntitlement) (s : State)
      → has_not_ended t e.valid_until ≡ true
      → answer (reserve_from db account_id feature_key user_id request_id p (some e) s).0 ≡ (
          if is_comparable db.zoned e.valid_until
          then (if ltb e.units_total (e.units_used + p.units_per_call)
              then refused billing_quota_exhausted
              else accepted)
          else crashed other)
  unfolding reserve_from is_past
  answer-reserve_from p e s h =
      ground (arith, still s, store_accepts p e s, store_accepts p e (now s).1)

  answer-reserve_with :
      (known : Option Policy) (s : State)
      → answer (reserve_with db account_id feature_key user_id request_id known s).0
        ≡ decision db.zoned account_id t (view s) known
  unfolding reserve_with get_active_entitlement_for_update
  answer-reserve_with none s = refl
  answer-reserve_with (some p) s =
      let s1 = (now s).1 in
      let s2 = (call query_call s1).1 in
      let rows : view s2 ≡ view s =
        db.view-call query_call s1 (answers query_call s1) ∙ db.view-now s in
      elim (Option-cases (usable_entitlement account_id p.resource_key t (view s))) [
        | inl missing ↦
            unfold reserve_from in ground (arith, still s, answers query_call s1, rows, missing)
        | inr (e, found) ↦ ground (
          arith,
          still s,
          answers query_call s1,
          rows,
          found,
          answer-reserve_from p e s2
              (usable-has_not_ended account_id p.resource_key t (view s) {e = e} found),
        )
      ]

  -- If every database call returns and the clock stands still, a reservation is decided by the rows
  -- alone: refused without a policy for the feature, without a usable entitlement, or if the one in
  -- use has fewer units left than the policy takes, and accepted otherwise, but for one case: if the
  -- entitlement has an end, and dates are loaded without a time zone, an exception is raised. It is
  -- never answered that the entitlement has expired.
  pub answer-reserve_feature_usage :
      (s : State)
      → answer (reserve_feature_usage db account_id feature_key user_id request_id s).0
        ≡ decision db.zoned account_id t (view s) (get_policy feature_policies feature_key)
  unfolding reserve_feature_usage
  answer-reserve_feature_usage s = answer-reserve_with (get_policy feature_policies feature_key) s
