-- ===== src/Auth/LoginEffect.antt =====
-- Who is let in, and what a sign-in saves.
use fastapi.Prelude.{
  ℕ, String, ◌≡◌, refl, ◌⊎◌, Option, none, some, true, false, arith, ltb, is_some, not, ◌&&◌, ◌||◌,
  if◌then◌else◌,
}
use fastapi.Exec.{
  Outcome, returned, raised, ServiceResult, success, failure, ErrorCode, auth_account_locked,
  auth_invalid_credentials, auth_inactive_user, auth_email_not_verified, common_internal_error,
}
use fastapi.Db.{query_call, Session, Tables, User, IsClean}
use fastapi.Auth.Users.{
  user_by_username, update_user, get_user_by_username, clear_failed_login_state,
}
use fastapi.Auth.Tokens.{Crypto, SecuritySettings, TokenPair, create_token_pair, create_token}
use fastapi.Auth.Effects.{
  clear_failed_login_state-Saves, register_failed_login-Saves, lock_until, forgiven, counted,
}
use fastapi.Auth.Login.{
  is_locked, answer_failure, refuse, grant_tokens, sign_in, authenticate_found, authenticate_user,
}

-- The rows after a sign-in: the failures of the user are cleared, if there are any.
abbrev pub cleared : User → Tables → Tables
cleared u rows =
    if ltb 0 u.failed_login_attempts || is_some u.locked_until
    then update_user u.id forgiven rows
    else rows

module _ (db : Session) (crypto : Crypto db.State) (settings : SecuritySettings) where
  open db use {State, view, saved, now}

  create_token_pair_saved :
      (u : User) (s : State) → (saved (create_token_pair db crypto settings u s).1 ≡ saved s)
  unfolding create_token_pair create_token
  create_token_pair_saved u s = ground (arith, db.saved-now s, db.saved-now (now s).1)

  -- Why the user `u` is not signed in although the password is right.
  abbrev pub RightPassword : User → State → ErrorCode → State → Type 0
  RightPassword u s code s' =
      ((code ≡ auth_inactive_user) × (u.is_active ≡ false) × (saved s' ≡ saved s))
      ⊎ ((code ≡ auth_email_not_verified)
          × ((settings.require_verified_email_for_login && not u.email_verified) ≡ true)
          × (saved s' ≡ saved s))
      ⊎ ((code ≡ common_internal_error) × ((saved s' ≡ saved s) ⊎ (saved s' ≡ cleared u (view s))))

  -- What may be saved for the user `u` by the outcome of a sign-in.
  abbrev SignsIn : User → State → Outcome (ServiceResult TokenPair) × State → Type 0
  SignsIn u s (returned (success _), s') =
      (u.is_active ≡ true)
      × ((settings.require_verified_email_for_login && not u.email_verified) ≡ false)
      × (saved s' ≡ cleared u (view s))
  SignsIn u s (returned (failure code), s') = RightPassword u s code s'
  SignsIn u s (raised _, s') = ⊥

  sign_in-SignsIn :
      (u : User) (s : State) → view s ≡ saved s → SignsIn u s (sign_in db crypto settings u s)
  unfolding sign_in grant_tokens create_token_pair create_token
  sign_in-SignsIn u s clean =
      let s' = (clear_failed_login_state db u s).1 in
      ground (
        arith,
        clean,
        clear_failed_login_state-Saves db u s,
        db.saved-now s,
        db.saved-now (now s).1,
        db.saved-now s',
        db.saved-now (now s').1,
      )

  -- A wrong password at the time `t`: with lockout enabled the failure is counted and saved, unless
  -- the database fails.
  abbrev pub WrongPassword : User → ℕ → State → ErrorCode → State → Type 0
  WrongPassword u t s code s' =
      let max = settings.account_lockout_max_attempts in
      let f = counted max (lock_until db u max settings.account_lockout s) in
      ((settings.account_lockout_enabled ≡ false)
        × (code ≡ auth_invalid_credentials)
        × (saved s' ≡ saved s))
      ⊎ ((settings.account_lockout_enabled ≡ true)
          × (code ≡ common_internal_error)
          × ((saved s' ≡ saved s) ⊎ (saved s' ≡ update_user u.id f (view s))))
      ⊎ ((settings.account_lockout_enabled ≡ true)
          × (code ≡ (
              if is_locked t (f u).locked_until
              then auth_account_locked
              else auth_invalid_credentials))
          × (saved s' ≡ update_user u.id f (view s)))

  abbrev Refuses : User → ℕ → State → Outcome (ServiceResult TokenPair) × State → Type 0
  Refuses u t s (returned (success _), s') = ⊥
  Refuses u t s (returned (failure code), s') = WrongPassword u t s code s'
  Refuses u t s (raised _, s') = ⊥

  refuse-Refuses : (u : User) (t : ℕ) (s : State) → Refuses u t s (refuse db crypto settings t u s)
  unfolding refuse answer_failure
  refuse-Refuses u t s =
      let max = settings.account_lockout_max_attempts in
      let until = lock_until db u max settings.account_lockout s in
      ground (arith, register_failed_login-Saves db u max settings.account_lockout s)

  -- The outcome of a sign-in at the time `t`, by the user that was found. `s` is the state at the
  -- time that the password is checked.
  abbrev pub Authenticates :
      Option User → String → ℕ → State → Outcome (ServiceResult TokenPair) × State → Type 0
  Authenticates none password t s (returned (success _), s') = ⊥
  Authenticates none password t s (_, s') = saved s' ≡ saved s
  Authenticates (some u) password t s (returned (success _), s') =
      (crypto.check_password password u.hashed_password ≡ true)
      × (is_locked t u.locked_until ≡ false)
      × (u.is_active ≡ true)
      × ((settings.require_verified_email_for_login && not u.email_verified) ≡ false)
      × (saved s' ≡ cleared u (view s))
  Authenticates (some u) password t s (returned (failure code), s') =
      ((is_locked t u.locked_until ≡ true) × (code ≡ auth_account_locked) × (saved s' ≡ saved s))
      ⊎ ((is_locked t u.locked_until ≡ false)
          × (crypto.check_password password u.hashed_password ≡ true)
          × RightPassword u s code s')
      ⊎ ((is_locked t u.locked_until ≡ false)
          × (crypto.check_password password u.hashed_password ≡ false)
          × WrongPassword u t s code s')
  Authenticates (some u) password t s (raised _, s') = saved s' ≡ saved s

  authenticate_found-Authenticates :
      (u : Option User) (password : String) (t : ℕ) (s : State)
      → view s ≡ saved s
      → Authenticates u password t s (authenticate_found db crypto settings t password u s)
  unfolding authenticate_found
  authenticate_found-Authenticates none password t s clean = refl
  authenticate_found-Authenticates (some u) password t s clean =
      ground (arith, refuse-Refuses u t s, sign_in-SignsIn u s clean)

  -- The state in which `authenticate_user` checks the password, where the lookup returns.
  abbrev pub checking : State → State
  checking s = (now (db.call query_call s).1).1

  -- `authenticate_user`, in a session with no pending change. It succeeds only for a user found
  -- by that name whose password checks, whose lock is over at the time that is read, who is active
  -- and, where the settings ask for it, verified; it then saves that user's failures cleared and
  -- nothing else. Without a user no row changes. While the lock is in force no row changes. After
  -- the right password a failure names the missing condition and saves nothing, or is an internal
  -- one. After a wrong password, with lockout enabled, one more failure is saved, with the lock
  -- that it brings, unless the answer is an internal error; with lockout disabled nothing is.
  pub authenticate_user_outcome :
      (username password : String) (s : State)
      → IsClean db s
      → Authenticates
          (user_by_username username (saved s))
          password
          (now (db.call query_call s).1).0
          (checking s)
          (authenticate_user db crypto settings username password s)
  unfolding authenticate_user get_user_by_username
  authenticate_user_outcome username password s clean =
      let s1 = (db.call query_call s).1 in
      let v = db.view-call query_call s in
      ground (
        arith,
        clean,
        v,
        db.saved-query s,
        db.view-now s1,
        db.saved-now s1,
        authenticate_found-Authenticates (user_by_username username (saved s)) password (now s1).0
            (checking s),
      )
