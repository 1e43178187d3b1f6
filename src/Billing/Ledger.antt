-- ===== src/Billing/Ledger.antt =====
-- The ledger: the `units_used` of an entitlement are the units of its usage events.
use fastapi.Prelude.{
  ℕ, ◌≡◌, ◌≤◌, ◌+◌, ◌*◌, refl, inl, inr, Option-cases, ==→eq, Bool, true, none, some, List, [], ◌∷◌,
  ◌++◌, arith, ◌==◌, if◌then◌else◌, filter, find, find_max, update_where, sum_by, sum_by-append,
}
use fastapi.Db.{Tables, FeatureEntitlement, UsageReservation, UsageEvent, Status}
use fastapi.Billing.Entitlements.{
  is_usable, charge_entitlement, insert_entitlement, usable_entitlement,
}
use fastapi.Billing.Reservations.{insert_reservation, set_reservation_status}
use fastapi.Billing.Usage.{insert_usage_event}
use fastapi.Billing.Settlement.{settled, is_drawn_on, IsEventOf}

-- The units used of the entitlements with the key `id`.
unfoldable pub units_used_of : ℕ → List FeatureEntitlement → ℕ
units_used_of id = sum_by (λ e. if e.id == id then e.units_used else 0)

-- The number of entitlements with the key `id`.
unfoldable pub rows_with : ℕ → List FeatureEntitlement → ℕ
rows_with id = sum_by (λ e. if e.id == id then 1 else 0)

-- The units of the usage events that name the entitlement `id`.
unfoldable pub units_charged_to : ℕ → List UsageEvent → ℕ
units_charged_to id = sum_by (λ v. if v.entitlement_id == id then v.units else 0)

-- Keys are unique, and the two accounts of usage agree.
pub record IsBalanced (t : Tables) : Type 0 where
  pub unique : (id : ℕ) → rows_with id t.entitlements ≤ 1
  pub agrees : (id : ℕ) → units_used_of id t.entitlements ≡ units_charged_to id t.usage_events

abbrev pub charge : ℕ → ℕ → FeatureEntitlement → FeatureEntitlement
charge n now e = record e { units_used = e.units_used + n; updated_at = now }

units_used_of-charge :
    (k n now j : ℕ) (es : List FeatureEntitlement)
    → units_used_of j (update_where (λ e. e.id == k) (charge n now) es)
      ≡ units_used_of j es + (if k == j then n * rows_with k es else 0)
unfolding units_used_of rows_with update_where sum_by
units_used_of-charge k n now j [] = ground arith
units_used_of-charge k n now j (e ∷ es) = grind (arith, units_used_of-charge k n now j es)

pub units_used_of-charge_one :
    (k n now j : ℕ) (es : List FeatureEntitlement)
    → rows_with k es ≡ 1
    → units_used_of j (update_where (λ e. e.id == k) (charge n now) es)
      ≡ units_used_of j es + (if k == j then n else 0)
units_used_of-charge_one k n now j es one =
    let h : units_used_of j (update_where (λ e. e.id == k) (charge n now) es)
        ≡ units_used_of j es + (if k == j then n * 1 else 0) =
      rw (units_used_of-charge k n now j es, one) refl in
    rw h (ground arith)

units_charged_to-insert :
    (j : ℕ) (ev : UsageEvent) (evs : List UsageEvent)
    → units_charged_to j (evs ++ ev ∷ [])
      ≡ units_charged_to j evs + (if ev.entitlement_id == j then ev.units else 0)
unfolding units_charged_to sum_by
units_charged_to-insert j ev evs =
    ground (arith, sum_by-append (λ v. if v.entitlement_id == j then v.units else 0) evs (ev ∷ []))

rows_with-charge :
    (k n now j : ℕ) (es : List FeatureEntitlement)
    → rows_with j (update_where (λ e. e.id == k) (charge n now) es) ≡ rows_with j es
unfolding rows_with update_where sum_by
rows_with-charge k n now j [] = refl
rows_with-charge k n now j (e ∷ es) = ground (arith, rows_with-charge k n now j es)

-- A row that the query finds is a row of the table.
pub rows_with-found :
    (p : FeatureEntitlement → Bool) (es : List FeatureEntitlement) {e : FeatureEntitlement}
    → find_max (λ x. x.id) (filter p es) ≡ some e
    → 1 ≤ rows_with e.id es
unfolding rows_with filter find_max sum_by
rows_with-found p [] h = ground arith
rows_with-found p (x ∷ xs) {e} h = ground (arith, rows_with-found p xs {e = e})

pub rows_with-drawn :
    (q : ℕ) (r : UsageReservation) (t : Tables)
    → is_drawn_on q r t ≡ true
    → 1 ≤ rows_with r.entitlement_id t.entitlements
unfolding is_drawn_on usable_entitlement
rows_with-drawn q r t h =
    let p = is_usable r.account_id r.resource_key q in
    elim (Option-cases (find_max (λ e. e.id) (filter p t.entitlements))) [
      | inl missing ↦ ground (arith, missing)
      | inr (e, found) ↦
          ground
            (arith, found, rows_with-found p t.entitlements {e = e}, ==→eq e.id r.entitlement_id)
    ]

-- A key that no row has is used by none.
rows_with-unused :
    (id : ℕ) (es : List FeatureEntitlement)
    → find (λ e. e.id == id) es ≡ none
    → (rows_with id es ≡ 0) × (units_used_of id es ≡ 0)
unfolding rows_with units_used_of find sum_by
rows_with-unused id [] h = (refl, refl)
rows_with-unused id (e ∷ es) h = ground (arith, rows_with-unused id es)

-- A charge keeps the ledger balanced, whatever the times that it writes.
pub settled-IsBalanced :
    (q t u : ℕ) (r : UsageReservation) (ev : UsageEvent) (rows : Tables)
    → is_drawn_on q r rows ≡ true
    → IsEventOf r ev
    → IsBalanced rows
    → IsBalanced (settled r ev t u rows)
unfolding charge_entitlement set_reservation_status insert_usage_event
settled-IsBalanced q t u r ev rows drawn fit ok =
    let k = r.entitlement_id in
    let one : rows_with k rows.entitlements ≡ 1 =
      omega (arith, ok.unique k, rows_with-drawn q r rows drawn) in
    record {
      unique = λ id. rw (rows_with-charge k r.units_reserved t id) (ok.unique id);
      agrees = λ id. rw (units_used_of-charge_one k r.units_reserved t id rows.entitlements one) (
          rw (units_charged_to-insert id ev rows.usage_events)
            (ground (arith, ok.agrees id, fit.entitlement, fit.units)));
    }

pub set_reservation_status-IsBalanced :
    (id : ℕ) (st : Status) (u : ℕ) (rows : Tables)
    → IsBalanced rows
    → IsBalanced (set_reservation_status id st u rows)
unfolding set_reservation_status
set_reservation_status-IsBalanced id st u rows ok = record {
  unique = ok.unique;
  agrees = ok.agrees;
}

pub insert_reservation-IsBalanced :
    (r : UsageReservation) (rows : Tables)
    → IsBalanced rows
    → IsBalanced (insert_reservation r rows)
unfolding insert_reservation
insert_reservation-IsBalanced r rows ok = record { unique = ok.unique; agrees = ok.agrees }

-- A new entitlement of which nothing is used keeps the ledger balanced.
pub insert_entitlement-IsBalanced :
    (e : FeatureEntitlement) (rows : Tables)
    → find (λ x. x.id == e.id) rows.entitlements ≡ none
    → e.units_used ≡ 0
    → IsBalanced rows
    → IsBalanced (insert_entitlement e rows)
unfolding insert_entitlement
insert_entitlement-IsBalanced e rows new unused ok = record {
  unique = λ id.
      unfold rows_with sum_by in
      ground (
        arith,
        sum_by-append (λ x. if x.id == id then 1 else 0) rows.entitlements (e ∷ []),
        rows_with-unused e.id rows.entitlements new,
        ok.unique id,
      );
  agrees = λ id.
      unfold units_used_of sum_by in
      ground (
        arith,
        sum_by-append (λ x. if x.id == id then x.units_used else 0) rows.entitlements (e ∷ []),
        unused,
        ok.agrees id,
      );
}
