-- ===== src/Auth/Effects.antt =====
-- The repository writes of accounts and tokens, each by what it saves.
use fastapi.Prelude.{ℕ, some, none, ◌≡◌, ◌⊎◌, inl, inr, Bool-cases, arith, leb, ◌+◌, if◌then◌else◌}
use fastapi.Exec.{Outcome, returned, raised, repository_error, other}
use fastapi.Db.{Session, Tables, User, commit_call, refresh_call}
use fastapi.Auth.Users.{
  save, update_user, count_failure, clear_failures, register_failed_login, clear_failed_login_state,
}

-- The user with no failures and no lock.
unfoldable pub forgiven : User → User
forgiven u = record u { failed_login_attempts = 0; locked_until = none }

-- The user with one failure more, and locked if they have reached the limit.
unfoldable pub counted : ℕ → ℕ → User → User
counted max_attempts until u =
    if leb max_attempts (u.failed_login_attempts + 1)
    then record u { failed_login_attempts = u.failed_login_attempts + 1; locked_until = some until }
    else record u { failed_login_attempts = u.failed_login_attempts + 1 }

module _ (db : Session) where
  open db use {State, view, saved, now, stage, call}

  -- A write that returns has saved the rows `t`. One that raises `RepositoryError` has saved nothing,
  -- or, where the refresh after the commit raised, the rows `t`.
  abbrev pub Saves : {A : Type 0} → A → Tables → State → Outcome A × State → Type 0
  Saves x t s (returned y, s') = (y ≡ x) × (saved s' ≡ t)
  Saves x t s (raised repository_error, s') = (saved s' ≡ saved s) ⊎ (saved s' ≡ t)
  Saves x t s (raised other, s') = ⊥

  pub save-Saves :
      {A : Type 0} (f : Tables → Tables) (x : A) (s : State)
      → Saves x (f (view s)) s (save db f x s)
  save-Saves f x s =
      let s1 = stage f s in
      let s2 = (call commit_call s1).1 in
      let s3 = (call refresh_call s2).1 in
      ground (
        arith,
        db.view-stage f s,
        db.saved-stage f s,
        db.saved-commit s1,
        db.saved-commit_raised s1,
        db.saved-refresh s2,
        db.saved-rollback s2,
        db.saved-rollback s3,
      )

  clear_failed_login_state-stores :
      (u : User) (s : State)
      → Saves
          (clear_failures u)
          (update_user u.id clear_failures (view s))
          s
          (clear_failed_login_state db u s)
  unfolding clear_failed_login_state
  clear_failed_login_state-stores u s =
      save-Saves (update_user u.id clear_failures) (clear_failures u) s

  -- The time at which the lock of a failed sign-in would end.
  abbrev pub lock_until : User → ℕ → ℕ → State → ℕ
  lock_until u max_attempts lockout s =
      if leb max_attempts (u.failed_login_attempts + 1) then (now s).0 + lockout else 0

  register_failed_login-stores :
      (u : User) (max_attempts lockout : ℕ) (s : State)
      → let f = count_failure max_attempts (lock_until u max_attempts lockout s) in
        Saves
          (f u)
          (update_user u.id f (view s))
          s
          (register_failed_login db u max_attempts lockout s)
  unfolding register_failed_login
  register_failed_login-stores u m l s =
      let f = count_failure m (lock_until u m l s) in
      let s' = (now s).1 in
      elim (Bool-cases (leb m (u.failed_login_attempts + 1))) [
        | inl sets ↦ ground (
          arith,
          sets,
          db.view-now s,
          db.saved-now s,
          save-Saves (update_user u.id (count_failure m ((now s).0 + l)))
              (count_failure m ((now s).0 + l) u) s',
        )
        | inr not_yet ↦ ground (
          arith,
          not_yet,
          save-Saves (update_user u.id (count_failure m 0)) (count_failure m 0 u) s,
        )
      ]

  pub clear_failed_login_state-Saves :
      (u : User) (s : State)
      → Saves (forgiven u) (update_user u.id forgiven (view s)) s (clear_failed_login_state db u s)
  unfolding clear_failures forgiven
  clear_failed_login_state-Saves u s = clear_failed_login_state-stores u s

  pub register_failed_login-Saves :
      (u : User) (max_attempts lockout : ℕ) (s : State)
      → let f = counted max_attempts (lock_until u max_attempts lockout s) in
        Saves
          (f u)
          (update_user u.id f (view s))
          s
          (register_failed_login db u max_attempts lockout s)
  unfolding count_failure counted
  register_failed_login-Saves u m l s = register_failed_login-stores u m l s
