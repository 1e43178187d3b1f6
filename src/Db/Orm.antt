-- ===== src/Db/Orm.antt =====
-- A SQLModel session is not the program's: it is a parameter. The fields below are the calls that
-- app/db makes of it, and the laws are what SQLAlchemy documents of them.
use fastapi.Prelude.{find, ◌==◌, Option, none, some, ℕ, Bool, true, false, ◌≡◌, if◌then◌else◌}
use fastapi.Exec.{Exec, returned, raised, other}
use fastapi.Db.Rows.{Tables}

-- The key of a row that may not be stored yet.
abbrev pub has_key : ℕ → Option ℕ → Bool
has_key key none = false
has_key key (some id) = id == key

-- The calls that can raise: `commit()`, `flush()`, `refresh(row)` and running a query.
pub data Call : Type 0 where
  commit_call flush_call refresh_call query_call : Call

-- `view` holds the rows as this session's queries show them, pending changes included; `saved` the
-- rows that other sessions see. `stage` is what `add` and assignments to a row leave pending.
-- `call` gives `false` if the call raises. `serial` is the next primary key, `now` the clock.
pub record Session : Type 1 where
  pub State : Type 0
  pub view : State → Tables
  pub saved : State → Tables
  pub stage : (Tables → Tables) → State → State
  pub call : Call → State → Bool × State
  pub rollback : State → State
  pub serial : State → ℕ
  pub now : State → ℕ × State
  -- Whether the dates of loaded rows carry a time zone: those of a PostgreSQL column declared with
  -- one do, those of the program's columns and of SQLite do not.
  pub zoned : Bool
  -- A pending change shows in this session, and in no other.
  pub view-stage : (f : Tables → Tables) (s : State) → view (stage f s) ≡ f (view s)
  pub saved-stage : (f : Tables → Tables) (s : State) → saved (stage f s) ≡ saved s
  -- A call that returns changes no row of the session.
  pub view-call : (c : Call) (s : State) → (call c s).0 ≡ true → view (call c s).1 ≡ view s
  -- A commit that returns saves the session's rows, and nothing else saves.
  pub saved-commit :
      (s : State) → (call commit_call s).0 ≡ true → saved (call commit_call s).1 ≡ view s
  pub saved-commit_raised :
      (s : State) → (call commit_call s).0 ≡ false → saved (call commit_call s).1 ≡ saved s
  pub saved-flush : (s : State) → saved (call flush_call s).1 ≡ saved s
  pub saved-refresh : (s : State) → saved (call refresh_call s).1 ≡ saved s
  pub saved-query : (s : State) → saved (call query_call s).1 ≡ saved s
  -- No row has the key that the next row gets.
  pub serial-reservation : (s : State) → find (λ r. r.id == serial s) (view s).reservations ≡ none
  pub serial-entitlement : (s : State) → find (λ e. e.id == serial s) (view s).entitlements ≡ none
  pub serial-user : (s : State) → find (λ u. has_key (serial s) u.id) (view s).users ≡ none
  -- After a rollback the session shows the saved rows.
  pub view-rollback : (s : State) → view (rollback s) ≡ saved s
  pub saved-rollback : (s : State) → saved (rollback s) ≡ saved s
  pub view-now : (s : State) → view (now s).1 ≡ view s
  pub saved-now : (s : State) → saved (now s).1 ≡ saved s

module _ (db : Session) where
  open db use {State, view, saved, stage, call, now, serial}

  abbrev pub perform : Call → Exec State (Unit {0})
  perform c s = let (done, s') = call c s in (if done then returned tt else raised other, s')

  -- `session.exec(select(...))`
  abbrev pub select : {A : Type 0} → (Tables → A) → Exec State A
  select f s =
      let (done, s') = call query_call s in
      (if done then returned (f (view s')) else raised other, s')

  -- `session.add(row)`, or an assignment to fields of a row
  abbrev pub write : (Tables → Tables) → Exec State (Unit {0})
  write f s = (returned tt, stage f s)

  abbrev pub roll_back : Exec State (Unit {0})
  roll_back s = (returned tt, db.rollback s)

  -- `datetime.now(UTC)`
  abbrev pub clock : Exec State ℕ
  clock s = let (t, s') = now s in (returned t, s')

  abbrev pub next_id : Exec State ℕ
  next_id s = (returned (serial s), s)

  -- A session with no pending change.
  abbrev pub IsClean : State → Type 0
  IsClean s = view s ≡ saved s
