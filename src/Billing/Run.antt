-- ===== src/Billing/Run.antt =====
-- `run_with_reserved_usage`: a feature that runs between its reservation and its commit.
use mathlib.Core.Path.{subst}
use fastapi.Prelude.{
  ℕ, String, ◌≡◌, ◌≤◌, ◌+◌, refl, sym, ap, ◌∙◌, Option, none, some, true, List, [], ◌∷◌, ◌++◌,
  arith, ◌==◌, find, ==_refl,
}
use fastapi.Exec.{Exec, Outcome, returned, raised, Exception, ServiceResult, success, failure}
use fastapi.Db.{Session, Tables, FeatureEntitlement, UsageReservation, UsageEvent, IsClean}
use fastapi.Billing.Entitlements.{usable_entitlement}
use fastapi.Billing.Reservations.{reservation_by_id, insert_reservation, set_reservation_status}
use fastapi.Billing.Enforcement.{
  Policy, reserve_feature_usage, commit_reserved_usage, release_reserved_usage, settle_run,
  run_reserved, run_with_reserved_usage,
}
use fastapi.Billing.Settlement.{
  CommitOutcome, commit_reserved_usage_outcome, settled, is_drawn_on, IsEventOf,
}
use fastapi.Billing.Release.{ReleaseOutcome, release_reserved_usage_outcome}
use fastapi.Billing.Reserve.{IsReservationOf, ReserveOutcome, reserve_feature_usage_outcome}

-- The row that was inserted last is found by its key, if no row had the key before.
find-insert_new :
    (r : UsageReservation) (rs : List UsageReservation)
    → find (λ x. x.id == r.id) rs ≡ none
    → find (λ x. x.id == r.id) (rs ++ r ∷ []) ≡ some r
unfolding find
find-insert_new r [] h = rw (==_refl r.id) refl
find-insert_new r (x ∷ xs) h = ground (arith, find-insert_new r xs)

pub reservation_by_id-insert :
    (r : UsageReservation) (t : Tables)
    → reservation_by_id r.id t ≡ none
    → reservation_by_id r.id (insert_reservation r t) ≡ some r
unfolding reservation_by_id insert_reservation
reservation_by_id-insert r t new = find-insert_new r t.reservations new

-- The entitlements and the usage events are what they were: nothing is charged.
pub record IsUncharged (t u : Tables) : Type 0 where
  pub entitlements : u.entitlements ≡ t.entitlements
  pub usage_events : u.usage_events ≡ t.usage_events

-- The saved rows `u`, where `t` were saved before the run and one call was charged.
pub record IsCharged (account_id : ℕ) (feature_key request_id : String) (t u : Tables)
    : Type 0 where
  pub policy : Policy
  pub entitlement : FeatureEntitlement
  pub reservation : UsageReservation
  pub event : UsageEvent
  pub begun : ℕ
  pub at_commit : ℕ
  pub charged : ℕ
  pub marked : ℕ
  pub usable : usable_entitlement account_id policy.resource_key begun t ≡ some entitlement
  pub room : entitlement.units_used + policy.units_per_call ≤ entitlement.units_total
  pub is_reservation :
      IsReservationOf account_id feature_key request_id policy entitlement reservation
  pub drawn : is_drawn_on at_commit reservation (insert_reservation reservation t) ≡ true
  pub is_event : IsEventOf reservation event
  pub rows : u ≡ settled reservation event charged marked (insert_reservation reservation t)

module _ (db : Session) (account_id : ℕ) (feature_key : String) (user_id : Option ℕ)
    (request_id : String) where
  open db use {State, view, saved}

  -- What a caller of `run_with_reserved_usage` may rely on.
  abbrev pub RunOutcome : {A : Type 0} → State → Outcome (ServiceResult A) × State → Type 0
  RunOutcome s (returned (success _), s') =
      IsCharged account_id feature_key request_id (saved s) (saved s')
  RunOutcome s (returned (failure _), s') = IsUncharged (saved s) (saved s')
  RunOutcome s (raised _, s') = IsUncharged (saved s) (saved s')

  abbrev finish :
      {A : Type 0}
      → A
      → Outcome (ServiceResult UsageEvent) × State
      → Outcome (ServiceResult A) × State
  finish v (returned (success _), s') = (returned (success v), s')
  finish v (returned (failure c), s') = (returned (failure c), s')
  finish v (raised x, s') = (raised x, s')

  settle_run_lem :
      {A : Type 0} (id : ℕ) (v : A) (s : State)
      → settle_run db id v s ≡ finish v (commit_reserved_usage db id s)
  unfolding settle_run
  settle_run_lem id v s = ground arith

  -- What the reservation `r` of the run has established.
  record IsReserved (r : UsageReservation) (s s' : State) : Type 0 where
    policy : Policy
    entitlement : FeatureEntitlement
    begun : ℕ
    usable : usable_entitlement account_id policy.resource_key begun (saved s) ≡ some entitlement
    room : entitlement.units_used + policy.units_per_call ≤ entitlement.units_total
    is_reservation : IsReservationOf account_id feature_key request_id policy entitlement r
    new : reservation_by_id r.id (saved s) ≡ none
    rows : saved s' ≡ insert_reservation r (saved s)
    clean : IsClean db s'

  finish_outcome :
      {A : Type 0} (v : A) (r : UsageReservation) (s s' : State)
      (o : Outcome (ServiceResult UsageEvent) × State)
      → IsReserved r s s'
      → CommitOutcome db r.id s' o
      → RunOutcome s (finish v o)
  unfolding insert_reservation
  finish_outcome v r s s' (returned (success ev), z) h (r', q, t, u, found, act, drawn, fit, rows) =
      let same : r ≡ r' =
        cc
          (ap (reservation_by_id r.id) h.rows, reservation_by_id-insert r (saved s) h.new, found) in
      record {
        policy = h.policy;
        entitlement = h.entitlement;
        reservation = r;
        event = ev;
        begun = h.begun;
        at_commit = q;
        charged = t;
        marked = u;
        usable = h.usable;
        room = h.room;
        is_reservation = h.is_reservation;
        drawn = cc (drawn, same, h.rows);
        is_event = subst (λ x. IsEventOf x ev) (sym same) fit;
        rows = cc (rows, same, h.rows);
      }
  finish_outcome v r s s' (returned (failure _), z) h c = record {
    entitlements = ap (λ (t : Tables). t.entitlements) (c ∙ h.rows);
    usage_events = ap (λ (t : Tables). t.usage_events) (c ∙ h.rows);
  }
  finish_outcome v r s s' (raised _, z) h c = record {
    entitlements = ap (λ (t : Tables). t.entitlements) (c ∙ h.rows);
    usage_events = ap (λ (t : Tables). t.usage_events) (c ∙ h.rows);
  }

  -- The handler of an exception of the operation: the release, and the exception again.
  abbrev reraise :
      {A : Type 0}
      → Exception
      → Outcome (ServiceResult (Unit {0})) × State
      → Outcome (ServiceResult A) × State
  reraise x (returned _, s') = (raised x, s')
  reraise x (raised y, s') = (raised y, s')

  reraise_outcome :
      (A : Type 0) (x : Exception) (r : UsageReservation) (s s' : State)
      (o : Outcome (ServiceResult (Unit {0})) × State)
      → IsReserved r s s'
      → ReleaseOutcome db r.id s' o
      → RunOutcome {A = A} s (reraise x o)
  unfolding insert_reservation set_reservation_status
  reraise_outcome A x r s s' (returned (success _), z) h (r', u, found, act, rows) = record {
    entitlements =
        ap (λ (t : Tables). t.entitlements) rows ∙ ap (λ (t : Tables). t.entitlements) h.rows;
    usage_events =
        ap (λ (t : Tables). t.usage_events) rows ∙ ap (λ (t : Tables). t.usage_events) h.rows;
  }
  reraise_outcome A x r s s' (returned (failure _), z) h c = record {
    entitlements = ap (λ (t : Tables). t.entitlements) (c ∙ h.rows);
    usage_events = ap (λ (t : Tables). t.usage_events) (c ∙ h.rows);
  }
  reraise_outcome A x r s s' (raised _, z) h c = record {
    entitlements = ap (λ (t : Tables). t.entitlements) (c ∙ h.rows);
    usage_events = ap (λ (t : Tables). t.usage_events) (c ∙ h.rows);
  }

  module _ {A : Type 0} (operation : Exec State A)
      (quiet : (s : State)
        → (view (operation s).1 ≡ view s) × (saved (operation s).1 ≡ saved s)) where
    after_operation :
        (r : UsageReservation) (s s' : State) → IsReserved r s s' → IsReserved r s (operation s').1
    after_operation r s s' h = record {
      policy = h.policy;
      entitlement = h.entitlement;
      begun = h.begun;
      usable = h.usable;
      room = h.room;
      is_reservation = h.is_reservation;
      new = h.new;
      rows = (quiet s').1 ∙ h.rows;
      clean = (quiet s').0 ∙ h.clean ∙ sym (quiet s').1;
    }

    after_call :
        (r : UsageReservation) (s s' : State) (o : Outcome A × State)
        → operation s' ≡ o
        → IsReserved r s o.1
        → RunOutcome s (run_reserved db operation (success r) s')
    unfolding run_reserved
    after_call r s s' (returned v, z) e h =
        let step : run_reserved db operation (success r) s'
            ≡ finish v (commit_reserved_usage db r.id z) =
          ground (arith, e, settle_run_lem r.id v z) in
        rw step (
          finish_outcome v r s z (commit_reserved_usage db r.id z) h
            (commit_reserved_usage_outcome db r.id z h.clean))
    after_call r s s' (raised x, z) e h =
        let step : run_reserved db operation (success r) s'
            ≡ reraise x (release_reserved_usage db r.id z) =
          ground (arith, e) in
        rw step (
          reraise_outcome A x r s z (release_reserved_usage db r.id z) h
            (release_reserved_usage_outcome db r.id z h.clean))

    run_reserved_outcome :
        (s : State) (o : Outcome (ServiceResult UsageReservation) × State)
        → reserve_feature_usage db account_id feature_key user_id request_id s ≡ o
        → ReserveOutcome db account_id feature_key user_id request_id s o
        → RunOutcome s
            (run_with_reserved_usage db account_id feature_key user_id request_id operation s)
    unfolding run_with_reserved_usage
    run_reserved_outcome s (returned (success r), s') e
          (p, ent, t, known, found, room, fit, new, rows, clean) =
        let h : IsReserved r s s' = record {
          policy = p;
          entitlement = ent;
          begun = t;
          usable = found;
          room = room;
          is_reservation = fit;
          new = new;
          rows = rows;
          clean = clean;
        } in
        let step : run_with_reserved_usage db account_id feature_key user_id request_id operation s
            ≡ run_reserved db operation (success r) s' =
          ground (arith, e) in
        rw step (after_call r s s' (operation s') refl (after_operation r s s' h))
    run_reserved_outcome s (returned (failure c), s') e h =
        let step : run_with_reserved_usage db account_id feature_key user_id request_id operation s
            ≡ (returned (failure c), s') =
          unfold run_reserved in ground (arith, e) in
        rw step (record {
          entitlements = ap (λ (t : Tables). t.entitlements) h;
          usage_events = ap (λ (t : Tables). t.usage_events) h;
        })
    run_reserved_outcome s (raised x, s') e h =
        let step : run_with_reserved_usage db account_id feature_key user_id request_id operation s
            ≡ (raised x, s') =
          unfold run_reserved in ground (arith, e) in
        rw step (record {
          entitlements = ap (λ (t : Tables). t.entitlements) h;
          usage_events = ap (λ (t : Tables). t.usage_events) h;
        })

    -- From a clean session, around an operation that leaves the rows alone: a run that succeeds has
    -- found a usable entitlement with room, and has saved one reservation of it, committed, one usage
    -- event and the units charged, and nothing else. A run that fails, or in which the operation or
    -- anything else raises, has charged nothing.
    pub run_with_reserved_usage_outcome :
        (s : State)
        → IsClean db s
        → RunOutcome s
            (run_with_reserved_usage db account_id feature_key user_id request_id operation s)
    run_with_reserved_usage_outcome s clean =
        run_reserved_outcome s
          (reserve_feature_usage db account_id feature_key user_id request_id s) refl
          (reserve_feature_usage_outcome db account_id feature_key user_id request_id s clean)
