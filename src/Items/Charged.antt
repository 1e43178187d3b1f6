-- ===== src/Items/Charged.antt =====
-- What creating, archiving and restoring an item does to the saved rows, the charge included.
use mathlib.Core.Path.{subst}
use fastapi.Prelude.{ℕ, String, ◌≡◌, ◌≤◌, ◌+◌, refl, sym, ap, ◌∙◌, Option, none, some, arith}
use fastapi.Exec.{
  Exec, Outcome, returned, raised, ServiceResult, success, failure, ErrorCode, ◌>>=◌,
}
use fastapi.Db.{Session, Tables, Item, FeatureEntitlement, UsageReservation, UsageEvent, IsClean}
use fastapi.Billing.Entitlements.{usable_entitlement}
use fastapi.Billing.Reservations.{reservation_by_id, insert_reservation}
use fastapi.Billing.Enforcement.{Policy, get_policy, feature_policies, reserve_feature_usage}
use fastapi.Billing.Settlement.{settled, IsEventOf}
use fastapi.Billing.Reserve.{IsReservationOf, ReserveOutcome, reserve_feature_usage_outcome}
use fastapi.Items.Rows.{insert_item, update_item}
use fastapi.Items.Charge.{IsUntouched, WritesItem}

-- A call costs one unit of a resource.
abbrev pub one_unit : String → Policy
one_unit resource_key = record { resource_key = resource_key; units_per_call = 1 }

-- The saved rows `u`, where `t` were saved before the call: the change `f` of the items, and one
-- charge of the feature.
pub record IsChargedWrite (account_id : ℕ) (feature_key resource_key request_id : String)
    (f : Tables → Tables) (t u : Tables) : Type 0 where
  pub entitlement : FeatureEntitlement
  pub reservation : UsageReservation
  pub event : UsageEvent
  pub begun : ℕ
  pub charged : ℕ
  pub marked : ℕ
  pub usable : usable_entitlement account_id resource_key begun t ≡ some entitlement
  pub room : entitlement.units_used + 1 ≤ entitlement.units_total
  pub is_reservation :
      IsReservationOf account_id feature_key request_id
        (one_unit resource_key)
        entitlement
        reservation
  pub is_event : IsEventOf reservation event
  pub rows : u ≡ settled reservation event charged marked (f (insert_reservation reservation t))

pub keeps-insert_item :
    (i : Item) (id : ℕ) (u : Tables)
    → reservation_by_id id (insert_item i u) ≡ reservation_by_id id u
unfolding reservation_by_id insert_item
keeps-insert_item i id u = refl

pub keeps-update_item :
    (item_id : ℕ) (g : Item → Item) (id : ℕ) (u : Tables)
    → reservation_by_id id (update_item item_id g u) ≡ reservation_by_id id u
unfolding reservation_by_id update_item
keeps-update_item item_id g id u = refl

pub unchanged : (t u : Tables) → u ≡ t → IsUntouched t u
unchanged t u h = record {
  items = ap (λ (x : Tables). x.items) h;
  entitlements = ap (λ (x : Tables). x.entitlements) h;
  usage_events = ap (λ (x : Tables). x.usage_events) h;
}

module _ (db : Session) (account_id : ℕ) (feature_key resource_key request_id : String)
    (user_id : Option ℕ) (W : Item → (Tables → Tables) → Type 0) where
  open db use {State, view, saved}

  -- `W` tells which item is answered and which change of the items is saved.
  abbrev pub ChargedWrite : Tables → Outcome (ServiceResult Item) × State → Type 0
  ChargedWrite t (returned (success x), s') =
      (f : Tables → Tables) × (W x f
        × IsChargedWrite account_id feature_key resource_key request_id f t (saved s'))
  ChargedWrite t (returned (failure _), s') = IsUntouched t (saved s')
  ChargedWrite t (raised _, s') = IsUntouched t (saved s')

  -- What the reservation `r` has established at `s'`.
  pub record IsReserved (r : UsageReservation) (t : Tables) (s' : State) : Type 0 where
    pub entitlement : FeatureEntitlement
    pub begun : ℕ
    pub usable : usable_entitlement account_id resource_key begun t ≡ some entitlement
    pub room : entitlement.units_used + 1 ≤ entitlement.units_total
    pub is_reservation :
        IsReservationOf account_id feature_key request_id (one_unit resource_key) entitlement r
    pub new : reservation_by_id r.id t ≡ none
    pub rows : saved s' ≡ insert_reservation r t
    pub clean : IsClean db s'

  pub ChargedWrite-intro :
      (r : UsageReservation) (f : Tables → Tables) (item : Item) (t : Tables) (s : State)
      (o : Outcome (ServiceResult Item) × State)
      → IsReserved r t s
      → W item f
      → WritesItem db r f item t o
      → ChargedWrite t o
  ChargedWrite-intro r f item t s (returned (success x), s') h w
        (same, (ev, (m, (n, (fit, rows))))) =
      (
        f,
        (
          subst (λ y. W y f) (sym same) w,
          record {
            entitlement = h.entitlement;
            reservation = r;
            event = ev;
            begun = h.begun;
            charged = m;
            marked = n;
            usable = h.usable;
            room = h.room;
            is_reservation = h.is_reservation;
            is_event = fit;
            rows = rows;
          },
        ),
      )
  ChargedWrite-intro r f item t s (returned (failure _), s') h w out = out
  ChargedWrite-intro r f item t s (raised _, s') h w out = out

  pub after_clock :
      (r : UsageReservation) (t : Tables) (s : State)
      → IsReserved r t s
      → IsReserved r t (db.now s).1
  after_clock r t s h = record {
    entitlement = h.entitlement;
    begun = h.begun;
    usable = h.usable;
    room = h.room;
    is_reservation = h.is_reservation;
    new = h.new;
    rows = db.saved-now s ∙ h.rows;
    clean = db.view-now s ∙ h.clean ∙ sym (db.saved-now s);
  }

  -- A call that reserves the feature and goes on with `k` writes what `k` writes after a
  -- reservation, and hands a failure on.
  module _ (price : get_policy feature_policies feature_key ≡ some (one_unit resource_key))
      (k : ServiceResult UsageReservation → Exec State (ServiceResult Item))
      (hands_on : (code : ErrorCode) (s : State)
        → k (failure code) s ≡ (returned (failure code), s))
      (writes : (r : UsageReservation) (t : Tables) (s : State)
        → IsReserved r t s
        → ChargedWrite t (k (success r) s)) where
    after_reservation :
        (s : State) (o : Outcome (ServiceResult UsageReservation) × State)
        → reserve_feature_usage db account_id feature_key user_id request_id s ≡ o
        → ReserveOutcome db account_id feature_key user_id request_id s o
        → ChargedWrite
            (saved s)
            ((reserve_feature_usage db account_id feature_key user_id request_id >>= k) s)
    after_reservation s (returned (success r), s') e
          (p, ent, n, known, found, room, fit, new, rows, clean) =
        let step : (reserve_feature_usage db account_id feature_key user_id request_id >>= k) s
            ≡ k (success r) s' =
          ground (arith, e) in
        let same : p ≡ one_unit resource_key = ground (arith, known, price) in
        rw step (
          writes r (saved s) s' (record {
            entitlement = ent;
            begun = n;
            usable =
                subst (λ q. usable_entitlement account_id q.resource_key n (saved s) ≡ some ent)
                  same found;
            room = subst (λ q. ent.units_used + q.units_per_call ≤ ent.units_total) same room;
            is_reservation =
                subst (λ q. IsReservationOf account_id feature_key request_id q ent r) same fit;
            new = new;
            rows = rows;
            clean = clean;
          }))
    after_reservation s (returned (failure c), s') e h =
        let step : (reserve_feature_usage db account_id feature_key user_id request_id >>= k) s
            ≡ (returned (failure c), s') =
          ground (arith, e, hands_on c s') in
        rw step (unchanged (saved s) (saved s') h)
    after_reservation s (raised x, s') e h =
        let step : (reserve_feature_usage db account_id feature_key user_id request_id >>= k) s
            ≡ (raised x, s') =
          ground (arith, e) in
        rw step (unchanged (saved s) (saved s') h)

    pub reserve-ChargedWrite :
        (s : State)
        → IsClean db s
        → ChargedWrite
            (saved s)
            ((reserve_feature_usage db account_id feature_key user_id request_id >>= k) s)
    reserve-ChargedWrite s clean =
        after_reservation s (reserve_feature_usage db account_id feature_key user_id request_id s)
          refl (reserve_feature_usage_outcome db account_id feature_key user_id request_id s clean)
