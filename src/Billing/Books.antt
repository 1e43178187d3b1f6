-- ===== src/Billing/Books.antt =====
-- Any sequence of requests: each runs on a session of its own, and what one saved the next reads.
-- Between the reservation of one request and its commit any other request may run.
use mathlib.Core.Path.{subst}
use fastapi.Prelude.{inl, inr, ℕ, String, ◌≡◌, sym, Option}
use fastapi.Prelude.Int.{ℤ}
use fastapi.Exec.{Outcome, returned, raised, ServiceResult, success, failure}
use fastapi.Db.{
  Session, Tables, FeatureEntitlement, UsageReservation, UsageEvent, released, IsClean,
}
use fastapi.Billing.Enforcement.{
  reserve_feature_usage, commit_reserved_usage, release_reserved_usage,
}
use fastapi.Billing.Grants.{grant_entitlement}
use fastapi.Billing.Settlement.{CommitOutcome, commit_reserved_usage_outcome}
use fastapi.Billing.Release.{ReleaseOutcome, release_reserved_usage_outcome}
use fastapi.Billing.Reserve.{ReserveOutcome, reserve_feature_usage_outcome}
use fastapi.Billing.GrantEffect.{GrantOutcome, grant_entitlement_outcome}
use fastapi.Billing.Ledger.{
  IsBalanced, settled-IsBalanced, set_reservation_status-IsBalanced, insert_reservation-IsBalanced,
  insert_entitlement-IsBalanced,
}

-- The calls of the two services that change the tables of metered features.
pub data Operation : Type 0 where
  grant : ℕ → String → ℤ → String → Option String → Option ℕ → Operation
  reserve : ℕ → String → Option ℕ → String → Operation
  commit release : ℕ → Operation

module _ (db : Session) where
  open db use {State, view, saved, now, serial, stage, call}

  -- The state in which a call leaves its session, whatever it returns or raises.
  unfoldable pub run_operation : Operation → State → State
  run_operation (grant account_id resource_key units_total source_type source_id valid_until) s =
      (grant_entitlement db account_id resource_key units_total source_type source_id valid_until
        s).1
  run_operation (reserve account_id feature_key user_id request_id) s =
      (reserve_feature_usage db account_id feature_key user_id request_id s).1
  run_operation (commit id) s = (commit_reserved_usage db id s).1
  run_operation (release id) s = (release_reserved_usage db id s).1

  -- `u` are the saved rows after some requests that began at the saved rows `t`.
  pub data Reaches (t : Tables) : Tables → Type 0 where
    here : Reaches t t
    next :
        {u : Tables} (v : Tables) (op : Operation) (s : State)
        → Reaches t u
        → IsClean db s
        → saved s ≡ u
        → saved (run_operation op s) ≡ v
        → Reaches t v

  pub commit-IsBalanced :
      (id : ℕ) (s : State) (o : Outcome (ServiceResult UsageEvent) × State)
      → CommitOutcome db id s o
      → IsBalanced (saved s)
      → IsBalanced (saved o.1)
  commit-IsBalanced id s (returned (success ev), s') (r, q, t, u, found, act, drawn, fit, h) ok =
      rw h (settled-IsBalanced q t u r ev (saved s) drawn fit ok)
  commit-IsBalanced id s (returned (failure _), s') h ok = rw h ok
  commit-IsBalanced id s (raised _, s') h ok = rw h ok

  release-IsBalanced :
      (id : ℕ) (s : State) (o : Outcome (ServiceResult (Unit {0})) × State)
      → ReleaseOutcome db id s o
      → IsBalanced (saved s)
      → IsBalanced (saved o.1)
  release-IsBalanced id s (returned (success _), s') (r, u, found, act, h) ok =
      rw h (set_reservation_status-IsBalanced r.id released u (saved s) ok)
  release-IsBalanced id s (returned (failure _), s') h ok = rw h ok
  release-IsBalanced id s (raised _, s') h ok = rw h ok

  reserve-IsBalanced :
      (account_id : ℕ) (feature_key : String) (user_id : Option ℕ) (request_id : String) (s : State)
      (o : Outcome (ServiceResult UsageReservation) × State)
      → ReserveOutcome db account_id feature_key user_id request_id s o
      → IsBalanced (saved s)
      → IsBalanced (saved o.1)
  reserve-IsBalanced a f m q s (returned (success r), s')
        (p, e, t, known, found, room, fit, new, h, c) ok =
      rw h (insert_reservation-IsBalanced r (saved s) ok)
  reserve-IsBalanced a f m q s (returned (failure _), s') h ok = rw h ok
  reserve-IsBalanced a f m q s (raised _, s') h ok = rw h ok

  grant-IsBalanced :
      (account_id : ℕ) (resource_key : String) (units_total : ℤ) (source_type : String)
      (source_id : Option String) (valid_until : Option ℕ) (s : State)
      (o : Outcome (ServiceResult FeatureEntitlement) × State)
      → GrantOutcome db account_id resource_key units_total source_type source_id valid_until s o
      → IsBalanced (saved s)
      → IsBalanced (saved o.1)
  grant-IsBalanced a k n c i v s (returned (success e), s') (fit, new, h) ok =
      rw h (insert_entitlement-IsBalanced e (saved s) new fit.unused ok)
  grant-IsBalanced a k n c i v s (returned (failure _), s') (inl h) ok = rw h ok
  grant-IsBalanced a k n c i v s (returned (failure _), s') (inr (e, code, fit, new, h)) ok =
      rw h (insert_entitlement-IsBalanced e (saved s) new fit.unused ok)
  grant-IsBalanced a k n c i v s (raised _, s') h ok = rw h ok

  run_operation-IsBalanced :
      (op : Operation) (s : State)
      → IsClean db s
      → IsBalanced (saved s)
      → IsBalanced (saved (run_operation op s))
  unfolding run_operation
  run_operation-IsBalanced (grant a k n c i v) s clean ok =
      grant-IsBalanced a k n c i v s (grant_entitlement db a k n c i v s)
        (grant_entitlement_outcome db a k n c i v s clean) ok
  run_operation-IsBalanced (reserve a f m q) s clean ok =
      reserve-IsBalanced a f m q s (reserve_feature_usage db a f m q s)
        (reserve_feature_usage_outcome db a f m q s clean) ok
  run_operation-IsBalanced (commit id) s clean ok =
      commit-IsBalanced id s (commit_reserved_usage db id s)
        (commit_reserved_usage_outcome db id s clean) ok
  run_operation-IsBalanced (release id) s clean ok =
      release-IsBalanced id s (release_reserved_usage db id s)
        (release_reserved_usage_outcome db id s clean) ok

  -- Whatever requests run, in whatever order, and whichever of their database calls raise: the units
  -- used of every entitlement stay equal to the units of its usage events, and no two entitlements
  -- get one key, if both held at first.
  pub Reaches-IsBalanced : {t u : Tables} → IsBalanced t → Reaches t u → IsBalanced u
  Reaches-IsBalanced ok here = ok
  Reaches-IsBalanced ok (next v op s r clean from to) =
      subst IsBalanced to (
        run_operation-IsBalanced op s clean (subst IsBalanced (sym from) (Reaches-IsBalanced ok r)))
