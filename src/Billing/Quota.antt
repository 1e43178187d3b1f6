-- ===== src/Billing/Quota.antt =====
-- The quota of an entitlement: kept by one run, and passed where reservations overlap.
use mathlib.Core.Path.{subst}
use fastapi.Prelude.{
  ℕ, String, ◌≡◌, ◌≤◌, ◌<◌, ◌+◌, refl, sym, Option, some, Bool, List, [], ◌∷◌, arith, ◌==◌,
  if◌then◌else◌, filter, find_max, update_where, sum_by,
}
use fastapi.Exec.{Exec, Outcome, returned, raised, ServiceResult, success, failure}
use fastapi.Db.{Session, Tables, FeatureEntitlement, UsageReservation, UsageEvent, IsClean}
use fastapi.Billing.Entitlements.{is_usable, usable_entitlement, charge_entitlement}
use fastapi.Billing.Reservations.{reservation_by_id, insert_reservation, set_reservation_status}
use fastapi.Billing.Usage.{insert_usage_event}
use fastapi.Billing.Enforcement.{commit_reserved_usage, run_with_reserved_usage}
use fastapi.Billing.Settlement.{CommitOutcome, commit_reserved_usage_outcome, settled}
use fastapi.Billing.Ledger.{
  IsBalanced, units_used_of, rows_with, rows_with-found, rows_with-drawn, units_used_of-charge_one,
  charge,
}
use fastapi.Billing.Books.{commit-IsBalanced}
use fastapi.Billing.Run.{IsCharged, RunOutcome, run_with_reserved_usage_outcome}

-- The units that the entitlements with the key `id` allow.
unfoldable pub units_total_of : ℕ → List FeatureEntitlement → ℕ
units_total_of id = sum_by (λ e. if e.id == id then e.units_total else 0)

abbrev pub IsWithinQuota : ℕ → Tables → Type 0
IsWithinQuota id t = units_used_of id t.entitlements ≤ units_total_of id t.entitlements

units_total_of-charge :
    (k n now j : ℕ) (es : List FeatureEntitlement)
    → units_total_of j (update_where (λ e. e.id == k) (charge n now) es) ≡ units_total_of j es
unfolding units_total_of update_where sum_by
units_total_of-charge k n now j [] = refl
units_total_of-charge k n now j (e ∷ es) = ground (arith, units_total_of-charge k n now j es)

units_of-unused :
    (id : ℕ) (es : List FeatureEntitlement)
    → rows_with id es ≡ 0
    → (units_used_of id es ≡ 0) × (units_total_of id es ≡ 0)
unfolding units_used_of units_total_of rows_with sum_by
units_of-unused id [] h = (refl, refl)
units_of-unused id (e ∷ es) h = ground (arith, units_of-unused id es)

-- With unique keys, the row that the query finds is the whole account of its key.
units_of-found :
    (p : FeatureEntitlement → Bool) (es : List FeatureEntitlement) {e : FeatureEntitlement}
    → find_max (λ x. x.id) (filter p es) ≡ some e
    → rows_with e.id es ≤ 1
    → (units_used_of e.id es ≡ e.units_used) × (units_total_of e.id es ≡ e.units_total)
unfolding units_used_of units_total_of rows_with filter find_max sum_by
units_of-found p [] h one = ground arith
units_of-found p (x ∷ xs) {e} h one =
    ground
      (arith, units_of-found p xs {e = e}, rows_with-found p xs {e = e}, units_of-unused e.id xs)

-- What a charge does to the account of each entitlement.
units_used_of-settled :
    (t u : ℕ) (r : UsageReservation) (ev : UsageEvent) (rows : Tables) (j : ℕ)
    → rows_with r.entitlement_id rows.entitlements ≡ 1
    → units_used_of j (settled r ev t u rows).entitlements
      ≡ units_used_of j rows.entitlements + (if r.entitlement_id == j then r.units_reserved else 0)
unfolding charge_entitlement set_reservation_status insert_usage_event
units_used_of-settled t u r ev rows j one =
    units_used_of-charge_one r.entitlement_id r.units_reserved t j rows.entitlements one

units_total_of-settled :
    (t u : ℕ) (r : UsageReservation) (ev : UsageEvent) (rows : Tables) (j : ℕ)
    → units_total_of j (settled r ev t u rows).entitlements ≡ units_total_of j rows.entitlements
unfolding charge_entitlement set_reservation_status insert_usage_event
units_total_of-settled t u r ev rows j =
    units_total_of-charge r.entitlement_id r.units_reserved t j rows.entitlements

IsCharged-IsWithinQuota :
    (a : ℕ) (f q : String) (t u : Tables) (j : ℕ)
    → IsBalanced t
    → IsCharged a f q t u
    → IsWithinQuota j t
    → IsWithinQuota j u
unfolding insert_reservation usable_entitlement
IsCharged-IsWithinQuota a f q t u j ok c within =
    let r = c.reservation in
    let e = c.entitlement in
    let rows = insert_reservation r t in
    let one : rows_with r.entitlement_id t.entitlements ≡ 1 =
      omega (arith, ok.unique r.entitlement_id, rows_with-drawn c.at_commit r rows c.drawn) in
    rw c.rows (
      rw (units_used_of-settled c.charged c.marked r c.event rows j one) (
        rw (units_total_of-settled c.charged c.marked r c.event rows j) (
          ground (
            arith,
            within,
            c.room,
            c.is_reservation.entitlement,
            c.is_reservation.units,
            units_of-found (is_usable a c.policy.resource_key c.begun) t.entitlements {e = e},
            c.usable,
            ok.unique e.id,
          ))))

module _ (db : Session) where
  open db use {State, view, saved}

  RunOutcome-IsWithinQuota :
      {A : Type 0} (a : ℕ) (f : String) (m : Option ℕ) (q : String) (s : State)
      (o : Outcome (ServiceResult A) × State) (j : ℕ)
      → RunOutcome db a f m q s o
      → IsBalanced (saved s)
      → IsWithinQuota j (saved s)
      → IsWithinQuota j (saved o.1)
  RunOutcome-IsWithinQuota a f m q s (returned (success _), s') j c ok within =
      IsCharged-IsWithinQuota a f q (saved s) (saved s') j ok c within
  RunOutcome-IsWithinQuota a f m q s (returned (failure _), s') j h ok within =
      rw h.entitlements within
  RunOutcome-IsWithinQuota a f m q s (raised _, s') j h ok within = rw h.entitlements within

  -- From a clean session with a balanced ledger, one run that nothing interleaves with keeps every
  -- entitlement within its quota, however it ends, if its operation leaves the rows alone.
  pub run_with_reserved_usage-IsWithinQuota :
      {A : Type 0} (account_id : ℕ) (feature_key : String) (user_id : Option ℕ)
      (request_id : String) (operation : Exec State A)
      → ((s : State) → (view (operation s).1 ≡ view s) × (saved (operation s).1 ≡ saved s))
      → (s : State) (id : ℕ) → IsClean db s
      → IsBalanced (saved s)
      → IsWithinQuota id (saved s)
      → IsWithinQuota id (
          saved
            (run_with_reserved_usage db account_id feature_key user_id request_id operation s).1)
  run_with_reserved_usage-IsWithinQuota a f m q operation quiet s id clean ok within =
      RunOutcome-IsWithinQuota a f m q s (run_with_reserved_usage db a f m q operation s) id
        (run_with_reserved_usage_outcome db a f m q operation quiet s clean) ok within

  -- A commit charges, whatever is left.
  commit_charges :
      (i : ℕ) (s : State) (o : Outcome (ServiceResult UsageEvent) × State) {ev : UsageEvent}
      {r : UsageReservation}
      → CommitOutcome db i s o
      → o.0 ≡ returned (success ev)
      → IsBalanced (saved s)
      → reservation_by_id i (saved s) ≡ some r
      → (units_used_of r.entitlement_id (saved o.1).entitlements
          ≡ units_used_of r.entitlement_id (saved s).entitlements + r.units_reserved)
        × (units_total_of r.entitlement_id (saved o.1).entitlements
            ≡ units_total_of r.entitlement_id (saved s).entitlements)
  commit_charges i s (returned (success ev), s') {r = r₀} (r, q, t, u, found, act, drawn, fit, rows)
        e ok known =
      let same : r ≡ r₀ = cc (found, known) in
      let one : rows_with r.entitlement_id (saved s).entitlements ≡ 1 =
        omega (arith, ok.unique r.entitlement_id, rows_with-drawn q r (saved s) drawn) in
      let used = units_used_of-settled t u r ev (saved s) r.entitlement_id one in
      let total = units_total_of-settled t u r ev (saved s) r.entitlement_id in
      rw (← same) (rw rows (ground (arith, used), total))
  commit_charges i s (returned (failure _), s') h e ok known = cc
  commit_charges i s (raised _, s') h e ok known = cc

  -- The quota is not kept where reservations overlap. Let two commits, of reservations of one
  -- entitlement, succeed one after the other. If the first takes the last units of the entitlement
  -- and the second charges at least one unit, then more units are used than the entitlement has.
  pub overlapping_commits_overdraw :
      (i j : ℕ) (s s' : State) {v w : UsageEvent} (a b : UsageReservation)
      → IsClean db s
      → IsClean db s'
      → IsBalanced (saved s)
      → saved s' ≡ saved (commit_reserved_usage db i s).1
      → reservation_by_id i (saved s) ≡ some a
      → reservation_by_id j (saved s') ≡ some b
      → b.entitlement_id ≡ a.entitlement_id
      → 0 < b.units_reserved
      → units_used_of a.entitlement_id (saved s).entitlements + a.units_reserved
        ≡ units_total_of a.entitlement_id (saved s).entitlements
      → (commit_reserved_usage db i s).0 ≡ returned (success v)
      → (commit_reserved_usage db j s').0 ≡ returned (success w)
      → let rows = saved (commit_reserved_usage db j s').1 in
        units_total_of a.entitlement_id rows.entitlements
        < units_used_of a.entitlement_id rows.entitlements
  overlapping_commits_overdraw i j s s' {v} {w} a b clean clean' ok chain fa fb same some_units last
        e e' =
      let c = commit_reserved_usage_outcome db i s clean in
      let ok' : IsBalanced (saved s') =
        subst IsBalanced (sym chain)
          (commit-IsBalanced db i s (commit_reserved_usage db i s) c ok) in
      let first = commit_charges i s (commit_reserved_usage db i s) {ev = v} {r = a} c e ok fa in
      let second =
        commit_charges j s' (commit_reserved_usage db j s') {ev = w} {r = b}
          (commit_reserved_usage_outcome db j s' clean') e' ok' fb in
      ground (arith, first, second, chain)
