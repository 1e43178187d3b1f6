-- ===== src/Registration/Outcome.antt =====
-- The outcome of a registration.
use fastapi.Prelude.{
  ◌≡◌, refl, sym, ap, ◌∙◌, ◌⊎◌, inl, inr, Option, none, some, Bool, true, false, not, arith,
  Bool-cases,
}
use fastapi.Prelude.Text.{Unicode, append}
use fastapi.Exec.{
  Outcome, returned, raised, repository_error, other, ServiceResult, success, failure,
  common_internal_error, try_repository, pure,
}
use fastapi.Db.{Session, Tables, Account, User, IsClean, flush_call}
use fastapi.Db.Attempt.{after_select}
use fastapi.Auth.Users.{user_exists}
use fastapi.Auth.Tokens.{Crypto}
use fastapi.Auth.Password.{
  PasswordPolicy, PasswordFault, validate_password_policy, is_acceptable,
  validate_password_policy_lem,
}
use fastapi.Auth.Links.{LinkSettings}
use fastapi.Auth.Effects.{Saves}
use fastapi.Registration.Create.{
  UserCreate, insert_account, new_user, registration_events, store_user, register, register_unless,
  register_if_strong, create_user,
}
use fastapi.Registration.Stored.{stored_rows, returned_user, create_user_with_outbox-Saves}
use fastapi.Registration.Effect.{is_taken, IsRegistered, built, stored-IsRegistered}

module _ (db : Session) (crypto : Crypto db.State) (links : LinkSettings)
    (user_in : UserCreate) where
  open db use {State, view, saved, now, stage, call, serial}
  open links use {email_verification_enabled}

  -- Either nothing is saved by a call that does not succeed, or the whole registration.
  abbrev pub Registers : State → Outcome (ServiceResult User) × State → Type 0
  Registers s (returned (success u), s') =
      IsRegistered crypto.hash_password user_in email_verification_enabled u (saved s) (saved s')
  Registers s (returned (failure _), s') =
      (saved s' ≡ saved s)
      ⊎ ((u : User) × IsRegistered crypto.hash_password user_in email_verification_enabled u
            (saved s) (saved s'))
  Registers s (raised _, s') = saved s' ≡ saved s

  Registers-intro :
      (s s1 : State) (x : User) (t : Tables) (o : Outcome User × State)
      → saved s1 ≡ saved s
      → Saves db x t s1 o
      → IsRegistered crypto.hash_password user_in email_verification_enabled x (saved s) t
      → Registers s (
          try_repository
            (λ _.
              let (r, s') = o in
              elim r [ returned u ↦ (returned (success u), s') | raised e ↦ (raised e, s') ])
            (pure (failure common_internal_error))
            s1)
  Registers-intro s s1 x t (returned y, s') w (same, h) r = rw (same, h) r
  Registers-intro s s1 x t (raised repository_error, s') w (inl h) r = inl (h ∙ w)
  Registers-intro s s1 x t (raised repository_error, s') w (inr h) r = inr (x, rw h r)
  Registers-intro s s1 x t (raised other, s') w h r = elim h [ ]

  store_user-Registers :
      (a : Account) (at s s0 s1 : State)
      → view s1 ≡ insert_account a (saved s)
      → saved s1 ≡ saved s
      → Registers s (
          store_user db crypto links
            (new_user user_in
              (crypto.hash_password at user_in.password)
              (not email_verification_enabled)
              a.id)
            (built db crypto links user_in s0)
            s1)
  unfolding store_user
  store_user-Registers a at s s0 s1 v w =
      let user =
        new_user user_in (crypto.hash_password at user_in.password) (not email_verification_enabled)
          a.id in
      let es = built db crypto links user_in s0 in
      Registers-intro s s1 (returned_user db crypto links user es s1 email_verification_enabled)
        (stored_rows db crypto links user es s1 email_verification_enabled (view s1)) _ w
        (create_user_with_outbox-Saves db crypto links user es s1 email_verification_enabled)
        (stored-IsRegistered db crypto links user_in email_verification_enabled a at (saved s) s0 s1
          v)

  abbrev account_for : State → Account
  account_for s = record { id = serial s; name = append user_in.username "-account" }

  register-Registers :
      (s s0 : State)
      → view s0 ≡ saved s
      → saved s0 ≡ saved s
      → Registers s (register db crypto links user_in s0)
  unfolding register registration_events
  register-Registers s s0 v w =
      let a = account_for s0 in
      let s1 = stage (insert_account a) s0 in
      let s2 = (call flush_call s1).1 in
      let s3 = (now (now (now s2).1).1).1 in
      let shown : view s1 ≡ insert_account a (saved s) =
        db.view-stage (insert_account a) s0 ∙ ap (insert_account a) v in
      let kept : saved s1 ≡ saved s = db.saved-stage (insert_account a) s0 ∙ w in
      elim (Bool-cases (call flush_call s1).0) [
        | inl done ↦
            let v3 : view s3 ≡ view s2 =
              db.view-now (now (now s2).1).1 ∙ db.view-now (now s2).1 ∙ db.view-now s2 in
            let w3 : saved s3 ≡ saved s2 =
              db.saved-now (now (now s2).1).1 ∙ db.saved-now (now s2).1 ∙ db.saved-now s2 in
            let user =
              new_user user_in (crypto.hash_password s2 user_in.password)
                (not email_verification_enabled) a.id in
            let step : register db crypto links user_in s0
                ≡ store_user db crypto links user (built db crypto links user_in s2) s3 =
              ground (arith, done) in
            rw step (
              store_user-Registers a s2 s s2 s3 (v3 ∙ db.view-call flush_call s1 done ∙ shown)
                (w3 ∙ db.saved-flush s1 ∙ kept))
        | inr broken ↦
            let step : register db crypto links user_in s0 ≡ (raised other, s2) =
              ground (arith, broken) in
            rw step (db.saved-flush s1 ∙ kept)
      ]

  -- A registration that stores anything was asked for with an acceptable password and with a name
  -- and an email that no user has.
  abbrev pub RegistersNew :
      Unicode → PasswordPolicy → State → Outcome (ServiceResult User) × State → Type 0
  RegistersNew u policy s o =
      (saved o.1 ≡ saved s)
      ⊎ ((is_acceptable u policy user_in.password user_in.username user_in.email ≡ true)
          × (is_taken user_in (saved s) ≡ false))

  register_if_strong-Registers :
      (u : Unicode) (policy : PasswordPolicy) (fault : Option PasswordFault) (s : State)
      → validate_password_policy u policy user_in.password user_in.username user_in.email ≡ fault
      → IsClean db s
      → let o = register_if_strong db crypto links fault user_in s in
        Registers s o × RegistersNew u policy s o
  register_if_strong-Registers u policy (some x) s e clean = (inl refl, inl refl)
  register_if_strong-Registers u policy none s e clean =
      unfold user_exists in
      after_select db (λ o. Registers s o × RegistersNew u policy s o) (is_taken user_in)
        (λ exists. register_unless db crypto links exists user_in) s
        (λ s0 v w. go (is_taken user_in (view s)) refl s0 v w) (λ s0 w. (w, inl w))
    where
      go :
          (exists : Bool)
          → is_taken user_in (view s) ≡ exists
          → (s0 : State) → view s0 ≡ view s
          → saved s0 ≡ saved s
          → let o = register_unless db crypto links exists user_in s0 in
            Registers s o × RegistersNew u policy s o
      go true h s0 v w = (inl w, inl w)
      go false h s0 v w = (
        register-Registers s s0 (v ∙ clean) w,
        inr (
          (validate_password_policy_lem u policy user_in.password user_in.username user_in.email).0
              e,
          ap (is_taken user_in) (sym clean) ∙ h,
        ),
      )

  -- `create_user`, in a session with no pending change. It succeeds with an active user of the name,
  -- email and phone that were given and with a hash of the password, that is saved
  -- together with an account and the pending events of the registration, and nothing else changes.
  -- Any other outcome saves nothing, or, where a failure is reported, all of it: never a part. And
  -- nothing is saved unless the policy accepts the password and no user has the name or the email.
  pub create_user_outcome :
      (u : Unicode) (policy : PasswordPolicy) (s : State)
      → IsClean db s
      → let o = create_user db crypto links u policy user_in s in
        Registers s o × RegistersNew u policy s o
  unfolding create_user
  create_user_outcome u policy s clean =
      register_if_strong-Registers u policy
        (validate_password_policy u policy user_in.password user_in.username user_in.email) s refl
        clean
