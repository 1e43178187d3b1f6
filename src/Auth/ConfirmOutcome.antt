-- ===== src/Auth/ConfirmOutcome.antt =====
-- The outcomes of the two confirmations by token.
use fastapi.Prelude.{
  String, ◌≡◌, refl, ap, ◌∙◌, ◌⊎◌, inl, inr, Option, none, some, Bool, true, false, arith,
}
use fastapi.Prelude.Text.{Unicode}
use fastapi.Exec.{
  Outcome, returned, raised, other, ServiceResult, success, failure, auth_invalid_token, try_except,
  ◌>>◌, pure,
}
use fastapi.Db.{Session, Tables, User, IsClean, commit_call, refresh_call, write, perform}
use fastapi.Auth.Users.{update_user}
use fastapi.Auth.Tokens.{Crypto}
use fastapi.Auth.Password.{
  PasswordPolicy, PasswordFault, validate_password_policy, is_acceptable,
  validate_password_policy_lem,
}
use fastapi.Auth.Confirm.{
  Notice, password_was_reset, email_was_verified, already_verified, fail_after_rollback,
  reset_password, verify_email, store_password, store_if_strong, confirm_password_reset,
  store_verified, confirm_email_verification,
}
use fastapi.Auth.ConfirmEffect.{token_user, with_token_user_lem}

-- The user with this hash and no failures.
unfoldable pub with_hash : String → User → User
with_hash hashed u = record u {
  hashed_password = hashed;
  failed_login_attempts = 0;
  locked_until = none;
}

unfoldable pub as_verified : User → User
as_verified u = record u { email_verified = true }

module _ (db : Session) (crypto : Crypto db.State) where
  open db use {State, view, saved, now, stage, call}

  -- A write that is rolled back if anything raises: if the refresh after the commit raises, the rows
  -- `t` are saved all the same.
  abbrev pub Writes : Notice → Tables → State → Outcome (ServiceResult Notice) × State → Type 0
  Writes n t s (returned (success x), s') = (x ≡ n) × (saved s' ≡ t)
  Writes n t s (returned (failure _), s') = (saved s' ≡ saved s) ⊎ (saved s' ≡ t)
  Writes n t s (raised _, s') = ⊥

  pub write-Writes :
      (f : Tables → Tables) (n : Notice) (s : State)
      → Writes n (f (view s)) s (
          try_except
            (do write db f; perform db commit_call; perform db refresh_call; pure (success n))
            (fail_after_rollback db crypto)
            s)
  write-Writes f n s =
      let s1 = stage f s in
      let s2 = (call commit_call s1).1 in
      let s3 = (call refresh_call s2).1 in
      ground (
        arith,
        db.view-stage f s,
        db.saved-stage f s,
        db.saved-commit s1,
        db.saved-commit_raised s1,
        db.saved-refresh s2,
        db.saved-rollback s2,
        db.saved-rollback s3,
      )

  -- The outcome of a reset by a token that names `found`.
  abbrev pub Resets :
      Unicode
      → PasswordPolicy
      → String
      → Option User
      → State
      → Outcome (ServiceResult Notice) × State
      → Type 0
  Resets u policy password none s (returned (success _), s') = ⊥
  Resets u policy password none s (_, s') = saved s' ≡ saved s
  Resets u policy password (some user) s (returned (success _), s') =
      (is_acceptable u policy password user.username user.email ≡ true)
      × ((at : State) × (saved s'
            ≡ update_user user.id (with_hash (crypto.hash_password at password)) (saved s)))
  Resets u policy password (some user) s (_, s') =
      (saved s' ≡ saved s)
      ⊎ ((is_acceptable u policy password user.username user.email ≡ true)
          × ((at : State) × (saved s'
                ≡ update_user user.id (with_hash (crypto.hash_password at password)) (saved s))))

  store-Resets :
      (u : Unicode) (policy : PasswordPolicy) (password : String) (user : User) (s s' : State)
      → view s' ≡ saved s
      → saved s' ≡ saved s
      → is_acceptable u policy password user.username user.email ≡ true
      → (o : Outcome (ServiceResult Notice) × State)
      → Writes password_was_reset
          (update_user user.id (with_hash (crypto.hash_password s' password)) (view s'))
          s'
          o
      → Resets u policy password (some user) s o
  store-Resets u policy password user s s' v w strong (returned (success x), r) (same, h) =
      (strong, (s', h ∙ ap (update_user user.id (with_hash (crypto.hash_password s' password))) v))
  store-Resets u policy password user s s' v w strong (returned (failure _), r) (inl h) =
      inl (h ∙ w)
  store-Resets u policy password user s s' v w strong (returned (failure _), r) (inr h) =
      inr (
        strong,
        (s', h ∙ ap (update_user user.id (with_hash (crypto.hash_password s' password))) v),
      )
  store-Resets u policy password user s s' v w strong (raised _, r) h = elim h [ ]

  store_if_strong-Resets :
      (u : Unicode) (policy : PasswordPolicy) (password : String) (user : User) (s s' : State)
      (fault : Option PasswordFault)
      → validate_password_policy u policy password user.username user.email ≡ fault
      → view s' ≡ saved s
      → saved s' ≡ saved s
      → Resets u policy password (some user) s (store_if_strong db crypto fault password user s')
  store_if_strong-Resets u policy password user s s' (some x) e v w = inl w
  store_if_strong-Resets u policy password user s s' none e v w =
      unfold store_password reset_password with_hash in
      store-Resets u policy password user s s' v w
        ((validate_password_policy_lem u policy password user.username user.email).0 e)
        (store_password db crypto password user s')
        (write-Writes (update_user user.id (with_hash (crypto.hash_password s' password)))
          password_was_reset s')

  refused-Resets :
      (u : Unicode) (policy : PasswordPolicy) (password : String) (found : Option User)
      (s s' : State)
      → saved s' ≡ saved s
      → Resets u policy password found s (returned (failure auth_invalid_token), s')
  refused-Resets u policy password none s s' w = w
  refused-Resets u policy password (some user) s s' w = inl w

  broken-Resets :
      (u : Unicode) (policy : PasswordPolicy) (password : String) (found : Option User)
      (s s' : State)
      → saved s' ≡ saved s
      → Resets u policy password found s (raised other, s')
  broken-Resets u policy password none s s' w = w
  broken-Resets u policy password (some user) s s' w = inl w

  -- `confirm_password_reset`, in a session with no pending change. It succeeds only with a token of
  -- that kind that names a user by key and by name, and a new password that the policy accepts, and
  -- then saves that user's new hash with the failures cleared, and nothing else. Any other
  -- outcome saves nothing, or, for such a user and password, the same change.
  pub confirm_password_reset_outcome :
      (u : Unicode) (policy : PasswordPolicy) (token password : String) (s : State)
      → IsClean db s
      → Resets u policy password
          (token_user "password_reset" (saved s) (crypto.decode (now s).0 token))
          s
          (confirm_password_reset db crypto u policy token password s)
  unfolding confirm_password_reset
  confirm_password_reset_outcome u policy token password s clean =
      let found = token_user "password_reset" (saved s) (crypto.decode (now s).0 token) in
      with_token_user_lem db crypto "password_reset"
        (λ user.
          store_if_strong db crypto
            (validate_password_policy u policy password user.username user.email) password user)
        s (Resets u policy password found s) (refused-Resets u policy password found s)
        (broken-Resets u policy password found s) token clean
        (λ user s' h v w. rw h (
          store_if_strong-Resets u policy password user s s'
            (validate_password_policy u policy password user.username user.email) refl v w))

  -- The outcome of a verification by a token that names `found`.
  abbrev pub Verifies : Option User → State → Outcome (ServiceResult Notice) × State → Type 0
  Verifies none s (returned (success _), s') = ⊥
  Verifies none s (_, s') = saved s' ≡ saved s
  Verifies (some user) s (returned (success n), s') =
      ((n ≡ already_verified) × (user.email_verified ≡ true) × (saved s' ≡ saved s))
      ⊎ ((n ≡ email_was_verified)
          × (user.email_verified ≡ false)
          × (saved s' ≡ update_user user.id as_verified (saved s)))
  Verifies (some user) s (_, s') =
      (saved s' ≡ saved s) ⊎ (saved s' ≡ update_user user.id as_verified (saved s))

  store-Verifies :
      (user : User) (s s' : State)
      → view s' ≡ saved s
      → saved s' ≡ saved s
      → user.email_verified ≡ false
      → (o : Outcome (ServiceResult Notice) × State)
      → Writes email_was_verified (update_user user.id as_verified (view s')) s' o
      → Verifies (some user) s o
  store-Verifies user s s' v w new (returned (success x), r) (same, h) =
      inr (same, new, h ∙ ap (update_user user.id as_verified) v)
  store-Verifies user s s' v w new (returned (failure _), r) (inl h) = inl (h ∙ w)
  store-Verifies user s s' v w new (returned (failure _), r) (inr h) =
      inr (h ∙ ap (update_user user.id as_verified) v)
  store-Verifies user s s' v w new (raised _, r) h = elim h [ ]

  store_verified-Verifies :
      (user : User) (s s' : State) (verified : Bool)
      → user.email_verified ≡ verified
      → view s' ≡ saved s
      → saved s' ≡ saved s
      → Verifies (some user) s (store_verified db crypto verified user s')
  store_verified-Verifies user s s' true e v w = inl (refl, e, w)
  store_verified-Verifies user s s' false e v w =
      unfold verify_email as_verified in
      store-Verifies user s s' v w e (store_verified db crypto false user s')
        (write-Writes (update_user user.id as_verified) email_was_verified s')

  refused-Verifies :
      (found : Option User) (s s' : State)
      → saved s' ≡ saved s
      → Verifies found s (returned (failure auth_invalid_token), s')
  refused-Verifies none s s' w = w
  refused-Verifies (some user) s s' w = inl w

  broken-Verifies :
      (found : Option User) (s s' : State)
      → saved s' ≡ saved s
      → Verifies found s (raised other, s')
  broken-Verifies none s s' w = w
  broken-Verifies (some user) s s' w = inl w

  -- `confirm_email_verification`, in a session with no pending change. It succeeds only with a token
  -- of that kind that names a user by key and by name: without a change if that user is verified
  -- already, and otherwise with that user marked as verified and nothing else changed. Any other
  -- outcome saves nothing, or, for such a user, the same mark.
  pub confirm_email_verification_outcome :
      (token : String) (s : State)
      → IsClean db s
      → Verifies
          (token_user "email_verification" (saved s) (crypto.decode (now s).0 token))
          s
          (confirm_email_verification db crypto token s)
  unfolding confirm_email_verification
  confirm_email_verification_outcome token s clean =
      let found = token_user "email_verification" (saved s) (crypto.decode (now s).0 token) in
      with_token_user_lem db crypto "email_verification"
        (λ user. store_verified db crypto user.email_verified user) s (Verifies found s)
        (refused-Verifies found s) (broken-Verifies found s) token clean
        (λ user s' h v w. rw h (store_verified-Verifies user s s' user.email_verified refl v w))
