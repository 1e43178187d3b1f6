-- ===== src/Db/Attempt.antt =====
-- What a repository call does to the rows: it returns with a pending change, or it rolls back and
-- raises `RepositoryError`. Nothing is saved either way.
use fastapi.Prelude.{arith, Bool-cases, inl, inr, sym, ◌≡◌}
use mathlib.Core.Path.{subst}
use fastapi.Exec.{
  Exec, Outcome, returned, raised, repository_error, other, pure, raise, try_except, ◌>>=◌, ◌>>◌,
}
use fastapi.Db.{
  Session, Tables, write, perform, roll_back, flush_call, refresh_call, select, query_call,
}

module _ (db : Session) where
  open db use {State, view, saved, stage, call}

  -- `x` is the row that is returned, `t` are the rows with the change.
  abbrev pub Attempts : {A : Type 0} → A → Tables → State → Outcome A × State → Type 0
  Attempts x t s (returned y, s') = (y ≡ x) × (view s' ≡ t) × (saved s' ≡ saved s)
  Attempts x t s (raised repository_error, s') = (view s' ≡ saved s) × (saved s' ≡ saved s)
  Attempts x t s (raised other, s') = ⊥

  -- `add`, `flush` and `refresh` in a `try` block that rolls back and raises `RepositoryError`.
  pub insert_attempt :
      {A : Type 0} (f : Tables → Tables) (x : A) (s : State)
      → Attempts x (f (view s)) s (
          try_except
            (do write db f; perform db flush_call; perform db refresh_call; pure x)
            (do roll_back db; raise repository_error)
            s)
  insert_attempt f x s =
      let s' = stage f s in
      let s'' = (call flush_call s').1 in
      ground (
        arith,
        db.view-stage f s,
        db.saved-stage f s,
        db.view-call flush_call s',
        db.saved-flush s',
        db.view-call refresh_call s'',
        db.saved-refresh s'',
        db.view-rollback s'',
        db.saved-rollback s'',
        db.view-rollback (call refresh_call s'').1,
        db.saved-rollback (call refresh_call s'').1,
      )

  -- A property of what follows a query holds if it holds with the rows that the session shows, and
  -- where the query raises. Neither changes a saved row.
  pub after_select :
      {A B : Type 0} (P : Outcome B × State → Type 0) (f : Tables → A) (k : A → Exec State B)
      (s : State)
      → ((s' : State) → view s' ≡ view s → saved s' ≡ saved s → P (k (f (view s)) s'))
      → ((s' : State) → saved s' ≡ saved s → P (raised other, s'))
      → P ((select db f >>= k) s)
  after_select {B = B} P f k s good bad =
      let s' = (call query_call s).1 in
      elim (Bool-cases (call query_call s).0) [
        | inl done ↦
            let v = db.view-call query_call s done in
            let step : (select db f >>= k) s ≡ k (f (view s)) s' = ground (arith, done, v) in
            subst P (sym step) (good s' v (db.saved-query s))
        | inr broken ↦
            let step : (select db f >>= k) s ≡ (raised other, s') = ground (arith, broken) in
            subst P (sym step) (bad s' (db.saved-query s))
      ]
