-- ===== src/Billing/Lifecycle.antt =====
-- The life of a reservation: active, then committed or released for good.
use mathlib.Core.Path.{subst}
use fastapi.Prelude.{
  ℕ, String, ◌≡◌, ◌≢◌, ap, ◌∙◌, ◌⊎◌, inl, inr, Option, none, some, List, [], ◌∷◌, ◌++◌, arith, ◌==◌,
  if◌then◌else◌, find, update_where, find-passes, ==→eq,
}
use fastapi.Prelude.Int.{ℤ}
use fastapi.Exec.{Outcome, returned, raised, ServiceResult, success, failure}
use fastapi.Db.{
  Session, Tables, FeatureEntitlement, UsageReservation, UsageEvent, Status, active, committed,
  released, IsClean,
}
use fastapi.Billing.Entitlements.{charge_entitlement, insert_entitlement}
use fastapi.Billing.Usage.{insert_usage_event}
use fastapi.Billing.Reservations.{reservation_by_id, insert_reservation, set_reservation_status}
use fastapi.Billing.Enforcement.{
  reserve_feature_usage, commit_reserved_usage, release_reserved_usage,
}
use fastapi.Billing.Grants.{grant_entitlement}
use fastapi.Billing.Settlement.{CommitOutcome, commit_reserved_usage_outcome, settled}
use fastapi.Billing.Release.{ReleaseOutcome, release_reserved_usage_outcome}
use fastapi.Billing.Reserve.{ReserveOutcome, reserve_feature_usage_outcome}
use fastapi.Billing.GrantEffect.{GrantOutcome, grant_entitlement_outcome}
use fastapi.Billing.Books.{
  Operation, grant, reserve, commit, release, run_operation, Reaches, here, next,
}

abbrev status_in : Option UsageReservation → Option Status
status_in none = none
status_in (some r) = some r.status

-- The status of the reservation `id`, if there is one.
unfoldable pub reservation_status : ℕ → Tables → Option Status
unfolding reservation_by_id
reservation_status id t = status_in (reservation_by_id id t)

abbrev replaced : Status → Option Status → Option Status
replaced st none = none
replaced st (some _) = some st

find-set :
    (id k : ℕ) (st : Status) (u : ℕ) (rs : List UsageReservation)
    → status_in (
        find
          (λ r. r.id == id)
          (update_where (λ r. r.id == k) (λ r. record r { status = st; updated_at = u }) rs))
      ≡ (if k == id
          then replaced st (status_in (find (λ r. r.id == id) rs))
          else status_in (find (λ r. r.id == id) rs))
unfolding find update_where
find-set id k st u [] = ground arith
find-set id k st u (r ∷ rs) = ground (arith, find-set id k st u rs)

reservation_status-set :
    (id k : ℕ) (st : Status) (u : ℕ) (t : Tables)
    → reservation_status id (set_reservation_status k st u t)
      ≡ (if k == id then replaced st (reservation_status id t) else reservation_status id t)
unfolding reservation_status set_reservation_status
reservation_status-set id k st u t = find-set id k st u t.reservations

find-insert :
    (id : ℕ) (r : UsageReservation) (rs : List UsageReservation) {st : Status}
    → status_in (find (λ x. x.id == id) rs) ≡ some st
    → status_in (find (λ x. x.id == id) (rs ++ r ∷ [])) ≡ some st
unfolding find
find-insert id r [] h = ground arith
find-insert id r (x ∷ xs) {st} h = ground (arith, find-insert id r xs {st = st})

reservation_status-insert :
    (id : ℕ) (r : UsageReservation) (t : Tables) {st : Status}
    → reservation_status id t ≡ some st
    → reservation_status id (insert_reservation r t) ≡ some st
unfolding reservation_status insert_reservation
reservation_status-insert id r t h = find-insert id r t.reservations h

reservation_status-settled :
    (id : ℕ) (r : UsageReservation) (ev : UsageEvent) (t u : ℕ) (rows : Tables)
    → reservation_status id (settled r ev t u rows) ≡ (
        if r.id == id
        then replaced committed (reservation_status id rows)
        else reservation_status id rows)
unfolding insert_usage_event charge_entitlement
reservation_status-settled id r ev t u rows =
    unfold reservation_status in
    reservation_status-set id r.id committed u
      (charge_entitlement r.entitlement_id r.units_reserved t rows)

pub reservation_by_id-id :
    (id : ℕ) (t : Tables) {r : UsageReservation} → reservation_by_id id t ≡ some r → r.id ≡ id
unfolding reservation_by_id
reservation_by_id-id id t {r} h = ==→eq r.id id (find-passes (λ x. x.id == id) t.reservations h)

pub reservation_status_of :
    (id : ℕ) (t : Tables) {r : UsageReservation}
    → reservation_by_id id t ≡ some r
    → reservation_status id t ≡ some r.status
unfolding reservation_status
reservation_status_of id t h = ap status_in h

-- How one operation may change the status `st` of the reservation `id`.
abbrev pub Moves : ℕ → Operation → Status → Option Status → Type 0
Moves id op st after =
    (after ≡ some st)
    ⊎ ((st ≡ active)
        × (((op ≡ commit id) × (after ≡ some committed))
            ⊎ ((op ≡ release id) × (after ≡ some released))))

module _ (db : Session) (id : ℕ) (st : Status) where
  open db use {State, saved}

  commit-Moves :
      (k : ℕ) (s : State) (o : Outcome (ServiceResult UsageEvent) × State)
      → CommitOutcome db k s o
      → reservation_status id (saved s) ≡ some st
      → Moves id (commit k) st (reservation_status id (saved o.1))
  commit-Moves k s (returned (success ev), s') (r, q, t, u, found, act, drawn, fit, h) before =
      rw h (
        rw (reservation_status-settled id r ev t u (saved s)) (
          ground (
            arith,
            before,
            act,
            reservation_by_id-id k (saved s) found,
            reservation_status_of k (saved s) found,
          )))
  commit-Moves k s (returned (failure _), s') h before = inl (ap (reservation_status id) h ∙ before)
  commit-Moves k s (raised _, s') h before = inl (ap (reservation_status id) h ∙ before)

  release-Moves :
      (k : ℕ) (s : State) (o : Outcome (ServiceResult (Unit {0})) × State)
      → ReleaseOutcome db k s o
      → reservation_status id (saved s) ≡ some st
      → Moves id (release k) st (reservation_status id (saved o.1))
  release-Moves k s (returned (success _), s') (r, u, found, act, h) before = rw h (
      rw (reservation_status-set id r.id released u (saved s)) (
        ground (
          arith,
          before,
          act,
          reservation_by_id-id k (saved s) found,
          reservation_status_of k (saved s) found,
        )))
  release-Moves k s (returned (failure _), s') h before =
      inl (ap (reservation_status id) h ∙ before)
  release-Moves k s (raised _, s') h before = inl (ap (reservation_status id) h ∙ before)

  reserve_keeps :
      (a : ℕ) (f : String) (m : Option ℕ) (q : String) (s : State)
      (o : Outcome (ServiceResult UsageReservation) × State)
      → ReserveOutcome db a f m q s o
      → reservation_status id (saved s) ≡ some st
      → reservation_status id (saved o.1) ≡ some st
  reserve_keeps a f m q s (returned (success r), s') (p, e, t, known, found, room, fit, new, h, c)
        before =
      rw h (reservation_status-insert id r (saved s) before)
  reserve_keeps a f m q s (returned (failure _), s') h before =
      ap (reservation_status id) h ∙ before
  reserve_keeps a f m q s (raised _, s') h before = ap (reservation_status id) h ∙ before

  grant_keeps :
      (a : ℕ) (k : String) (n : ℤ) (c : String) (i : Option String) (v : Option ℕ) (s : State)
      (o : Outcome (ServiceResult FeatureEntitlement) × State)
      → GrantOutcome db a k n c i v s o
      → reservation_status id (saved s) ≡ some st
      → reservation_status id (saved o.1) ≡ some st
  unfolding insert_entitlement reservation_status
  grant_keeps a k n c i v s (returned (success e), s') (fit, new, h) before = rw h before
  grant_keeps a k n c i v s (returned (failure _), s') (inl h) before =
      ap (reservation_status id) h ∙ before
  grant_keeps a k n c i v s (returned (failure _), s') (inr (e, code, fit, new, h)) before =
      rw h before
  grant_keeps a k n c i v s (raised _, s') h before = ap (reservation_status id) h ∙ before

  -- Over one call on a clean session a reservation keeps its status, or it was active and the call is
  -- its commit or its release, after which it is committed or released.
  run_operation-Moves :
      (op : Operation) (s : State)
      → IsClean db s
      → reservation_status id (saved s) ≡ some st
      → Moves id op st (reservation_status id (saved (run_operation db op s)))
  unfolding run_operation
  run_operation-Moves (grant a k n c i v) s clean before = inl (
      grant_keeps a k n c i v s (grant_entitlement db a k n c i v s)
        (grant_entitlement_outcome db a k n c i v s clean) before)
  run_operation-Moves (reserve a f m q) s clean before = inl (
      reserve_keeps a f m q s (reserve_feature_usage db a f m q s)
        (reserve_feature_usage_outcome db a f m q s clean) before)
  run_operation-Moves (commit k) s clean before =
      commit-Moves k s (commit_reserved_usage db k s) (commit_reserved_usage_outcome db k s clean)
        before
  run_operation-Moves (release k) s clean before =
      release-Moves k s (release_reserved_usage db k s)
        (release_reserved_usage_outcome db k s clean) before

  settled_by_one :
      (op : Operation) (after : Option Status)
      → st ≢ active
      → Moves id op st after
      → after ≡ some st
  settled_by_one op after done (inl h) = h
  settled_by_one op after done (inr h) = absurd (done h.0)

  -- A reservation that is committed or released stays so, whatever requests follow.
  pub Reaches-settled :
      {t u : Tables}
      → st ≢ active
      → reservation_status id t ≡ some st
      → Reaches db t u
      → reservation_status id u ≡ some st
  Reaches-settled done before here = before
  Reaches-settled done before (next v op s r clean from to) =
      subst (λ x. reservation_status id x ≡ some st) to
        (settled_by_one op (reservation_status id (saved (run_operation db op s))) done (
          run_operation-Moves op s clean
            (ap (reservation_status id) from ∙ Reaches-settled done before r)))
