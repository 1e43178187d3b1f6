-- ===== src/Billing/Charges.antt =====
-- The charges of a reservation: at most one, since a reservation that is not active is charged no more.
use mathlib.Core.Path.{subst}
use fastapi.Prelude.{
  ℕ, String, ◌≡◌, ◌≢◌, refl, ap, ◌∙◌, ◌+◌, inl, inr, Option, none, some, Bool, false, [], ◌∷◌,
  arith, ◌==◌, ==→eq, if◌then◌else◌, sum_by, sum_by-append,
}
use fastapi.Prelude.Int.{ℤ}
use fastapi.Exec.{Outcome, returned, raised, ServiceResult, success, failure}
use fastapi.Db.{
  Session, Tables, FeatureEntitlement, UsageReservation, UsageEvent, Status, active, IsClean,
}
use fastapi.Billing.Entitlements.{charge_entitlement, insert_entitlement}
use fastapi.Billing.Usage.{insert_usage_event}
use fastapi.Billing.Reservations.{insert_reservation, set_reservation_status}
use fastapi.Billing.Enforcement.{
  reserve_feature_usage, commit_reserved_usage, release_reserved_usage,
}
use fastapi.Billing.Grants.{grant_entitlement}
use fastapi.Billing.Settlement.{CommitOutcome, commit_reserved_usage_outcome}
use fastapi.Billing.Release.{ReleaseOutcome, release_reserved_usage_outcome}
use fastapi.Billing.Reserve.{ReserveOutcome, reserve_feature_usage_outcome}
use fastapi.Billing.GrantEffect.{GrantOutcome, grant_entitlement_outcome}
use fastapi.Billing.Books.{
  Operation, grant, reserve, commit, release, run_operation, Reaches, here, next,
}
use fastapi.Billing.Lifecycle.{
  reservation_status, reservation_by_id-id, reservation_status_of, Reaches-settled,
}

abbrev is_for : ℕ → Option ℕ → Bool
is_for id none = false
is_for id (some reservation_id) = reservation_id == id

-- The number of usage events of the reservation `id`.
unfoldable pub charges_of : ℕ → Tables → ℕ
charges_of id t = sum_by (λ v. if is_for id v.reservation_id then 1 else 0) t.usage_events

charges_of-insert :
    (id : ℕ) (ev : UsageEvent) (t : Tables)
    → charges_of id (insert_usage_event ev t)
      ≡ charges_of id t + (if is_for id ev.reservation_id then 1 else 0)
unfolding charges_of insert_usage_event sum_by
charges_of-insert id ev t = ground (
  arith,
  sum_by-append (λ v. if is_for id v.reservation_id then 1 else 0) t.usage_events (ev ∷ []),
)

module _ (db : Session) (id : ℕ) (st : Status) (done : st ≢ active) where
  open db use {State, saved}

  commit_charges :
      (k : ℕ) (s : State) (o : Outcome (ServiceResult UsageEvent) × State)
      → CommitOutcome db k s o
      → reservation_status id (saved s) ≡ some st
      → charges_of id (saved o.1) ≡ charges_of id (saved s)
  commit_charges k s (returned (success ev), s') (r, q, t, u, found, act, drawn, fit, h) before =
      let other : r.id ≢ id = λ same. done (
        ground (
          arith,
          before,
          act,
          same,
          reservation_by_id-id k (saved s) found,
          reservation_status_of k (saved s) found,
        )) in
      let rows =
        set_reservation_status r.id Status.committed u
          (charge_entitlement r.entitlement_id r.units_reserved t (saved s)) in
      let kept : charges_of id rows ≡ charges_of id (saved s) =
        unfold charges_of set_reservation_status charge_entitlement in refl in
      ap (charges_of id) h
      ∙ ground (arith, kept, charges_of-insert id ev rows, fit.reservation, other, ==→eq r.id id)
  commit_charges k s (returned (failure _), s') h before = ap (charges_of id) h
  commit_charges k s (raised _, s') h before = ap (charges_of id) h

  release_charges :
      (k : ℕ) (s : State) (o : Outcome (ServiceResult (Unit {0})) × State)
      → ReleaseOutcome db k s o
      → charges_of id (saved o.1) ≡ charges_of id (saved s)
  unfolding set_reservation_status charges_of
  release_charges k s (returned (success _), s') (r, u, found, act, h) = ap (charges_of id) h
  release_charges k s (returned (failure _), s') h = ap (charges_of id) h
  release_charges k s (raised _, s') h = ap (charges_of id) h

  reserve_charges :
      (a : ℕ) (f : String) (m : Option ℕ) (q : String) (s : State)
      (o : Outcome (ServiceResult UsageReservation) × State)
      → ReserveOutcome db a f m q s o
      → charges_of id (saved o.1) ≡ charges_of id (saved s)
  unfolding insert_reservation charges_of
  reserve_charges a f m q s (returned (success r), s')
        (p, e, t, known, found, room, fit, new, h, c) =
      ap (charges_of id) h
  reserve_charges a f m q s (returned (failure _), s') h = ap (charges_of id) h
  reserve_charges a f m q s (raised _, s') h = ap (charges_of id) h

  grant_charges :
      (a : ℕ) (k : String) (n : ℤ) (c : String) (i : Option String) (v : Option ℕ) (s : State)
      (o : Outcome (ServiceResult FeatureEntitlement) × State)
      → GrantOutcome db a k n c i v s o
      → charges_of id (saved o.1) ≡ charges_of id (saved s)
  unfolding insert_entitlement charges_of
  grant_charges a k n c i v s (returned (success e), s') (fit, new, h) = ap (charges_of id) h
  grant_charges a k n c i v s (returned (failure _), s') (inl h) = ap (charges_of id) h
  grant_charges a k n c i v s (returned (failure _), s') (inr (e, code, fit, new, h)) =
      ap (charges_of id) h
  grant_charges a k n c i v s (raised _, s') h = ap (charges_of id) h

  run_operation_charges :
      (op : Operation) (s : State)
      → IsClean db s
      → reservation_status id (saved s) ≡ some st
      → charges_of id (saved (run_operation db op s)) ≡ charges_of id (saved s)
  unfolding run_operation
  run_operation_charges (grant a k n c i v) s clean before =
      grant_charges a k n c i v s (grant_entitlement db a k n c i v s)
        (grant_entitlement_outcome db a k n c i v s clean)
  run_operation_charges (reserve a f m q) s clean before =
      reserve_charges a f m q s (reserve_feature_usage db a f m q s)
        (reserve_feature_usage_outcome db a f m q s clean)
  run_operation_charges (commit k) s clean before =
      commit_charges k s (commit_reserved_usage db k s) (commit_reserved_usage_outcome db k s clean)
        before
  run_operation_charges (release k) s clean before =
      release_charges k s (release_reserved_usage db k s)
        (release_reserved_usage_outcome db k s clean)

  -- A reservation that is no longer active keeps its status whatever requests follow, each on a
  -- session with no pending change, those that fail or raise included, and no usage event is added
  -- for it: once committed it is charged no second time.
  pub Reaches-charged_once :
      {t u : Tables}
      → reservation_status id t ≡ some st
      → Reaches db t u
      → (reservation_status id u ≡ some st) × (charges_of id u ≡ charges_of id t)
  Reaches-charged_once before here = (before, refl)
  Reaches-charged_once {t} before (next v op s r clean from to) =
      let (status, charges) = Reaches-charged_once before r in
      let again = ap (reservation_status id) from ∙ status in
      (
        Reaches-settled db id st done before (next v op s r clean from to),
        subst (λ x. charges_of id x ≡ charges_of id t) to
            (run_operation_charges op s clean again ∙ ap (charges_of id) from ∙ charges),
      )
