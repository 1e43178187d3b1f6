-- ===== src/Db/Demo.antt =====
-- A session that meets the laws, for examples: two copies of the tables, a clock that moves by
-- one, and a list that says which of the next calls raise.
use fastapi.Prelude.{
  ◌+◌, none, some, Option, ◌<◌, ◌==◌, find, sum_by, ℕ, suc, Bool, true, false, ◌≡◌, refl, List, [],
  ◌∷◌, arith,
}
use fastapi.Db.Rows.{Tables, User}
use fastapi.Db.Orm.{Session, has_key, Call, commit_call, flush_call, refresh_call, query_call}

pub record Demo : Type 0 where
  pub view : Tables
  pub saved : Tables
  pub time : ℕ
  -- `true`: the call returns; after the end of the list every call returns
  pub script : List Bool

abbrev pub demo_saved : Call → Bool → Demo → Tables
demo_saved commit_call true d = d.view
demo_saved _ _ d = d.saved

abbrev pub demo_call : Call → Demo → Bool × Demo
demo_call c d = elim d.script [
  | [] ↦ (true, record d { saved = demo_saved c true d })
  | b ∷ rest ↦ (b, record d { saved = demo_saved c b d; script = rest })
]

pub demo-view-call :
    (c : Call) (d : Demo) → (demo_call c d).0 ≡ true → (demo_call c d).1.view ≡ d.view
demo-view-call c d h = ground arith

pub demo-saved-commit :
    (d : Demo) → (demo_call commit_call d).0 ≡ true → (demo_call commit_call d).1.saved ≡ d.view
demo-saved-commit d h = ground arith

pub demo-saved-commit_raised :
    (d : Demo) → (demo_call commit_call d).0 ≡ false → (demo_call commit_call d).1.saved ≡ d.saved
demo-saved-commit_raised d h = ground arith

pub demo-saved-flush : (d : Demo) → (demo_call flush_call d).1.saved ≡ d.saved
demo-saved-flush d = ground arith

pub demo-saved-refresh : (d : Demo) → (demo_call refresh_call d).1.saved ≡ d.saved
demo-saved-refresh d = ground arith

pub demo-saved-query : (d : Demo) → (demo_call query_call d).1.saved ≡ d.saved
demo-saved-query d = ground arith

abbrev pub key_of : Option ℕ → ℕ
key_of none = 0
key_of (some id) = id

-- A key above all keys of the tables that are keyed by numbers.
abbrev pub demo_serial : Tables → ℕ
demo_serial t = suc (
    sum_by (λ r. r.id) t.reservations
    + (sum_by (λ e. e.id) t.entitlements
        + (sum_by (λ e. e.id) t.usage_events
            + (sum_by (λ i. i.id) t.items + sum_by (λ u. key_of u.id) t.users))))

find-above_sum :
    {A : Type 0} (key : A → ℕ) (xs : List A) (n : ℕ)
    → sum_by key xs < n
    → find (λ x. key x == n) xs ≡ none
unfolding find sum_by
find-above_sum key [] n h = refl
find-above_sum key (x ∷ xs) n h = ground (arith, find-above_sum key xs n)

pub demo_serial-reservation : (t : Tables) → find (λ r. r.id == demo_serial t) t.reservations ≡ none
demo_serial-reservation t = find-above_sum (λ r. r.id) t.reservations (demo_serial t) (omega arith)

pub demo_serial-entitlement : (t : Tables) → find (λ e. e.id == demo_serial t) t.entitlements ≡ none
demo_serial-entitlement t = find-above_sum (λ e. e.id) t.entitlements (demo_serial t) (omega arith)

find_user-above_sum :
    (us : List User) (n : ℕ)
    → sum_by (λ u. key_of u.id) us < n
    → find (λ u. has_key n u.id) us ≡ none
unfolding find sum_by
find_user-above_sum [] n h = refl
find_user-above_sum (u ∷ us) n h = ground (arith, find_user-above_sum us n)

pub demo_serial-user : (t : Tables) → find (λ u. has_key (demo_serial t) u.id) t.users ≡ none
demo_serial-user t = find_user-above_sum t.users (demo_serial t) (omega arith)

abbrev pub demo : Session
demo = record {
  State = Demo;
  view = λ d. d.view;
  saved = λ d. d.saved;
  stage = λ f d. record d { view = f d.view };
  call = demo_call;
  rollback = λ d. record d { view = d.saved };
  serial = λ d. demo_serial d.view;
  now = λ d. (d.time, record d { time = suc d.time });
  zoned = true;
  view-stage = λ f d. refl;
  saved-stage = λ f d. refl;
  view-call = demo-view-call;
  saved-commit = demo-saved-commit;
  saved-commit_raised = demo-saved-commit_raised;
  saved-flush = demo-saved-flush;
  saved-refresh = demo-saved-refresh;
  saved-query = demo-saved-query;
  serial-reservation = λ d. demo_serial-reservation d.view;
  serial-entitlement = λ d. demo_serial-entitlement d.view;
  serial-user = λ d. demo_serial-user d.view;
  view-rollback = λ d. refl;
  saved-rollback = λ d. refl;
  view-now = λ d. refl;
  saved-now = λ d. refl;
}

-- A session in which every call returns and the clock stands still at 0.
pub calm-saved-commit_raised : (d : Demo) → true ≡ false → d.view ≡ d.saved
calm-saved-commit_raised d h = ground (arith, h)

abbrev pub calm : Session
calm = record demo {
  call = λ c d. (true, record d { saved = demo_saved c true d });
  now = λ d. (0, d);
  view-call = λ c d h. refl;
  saved-commit = λ d h. refl;
  saved-commit_raised = λ d h. calm-saved-commit_raised d h;
  saved-flush = λ d. refl;
  saved-refresh = λ d. refl;
  saved-query = λ d. refl;
  view-now = λ d. refl;
  saved-now = λ d. refl;
}
