-- ===== src/Jobs/BootstrapEffect.antt =====
-- What the bootstrap of an administrator saves.
use mathlib.Core.Path.{subst}
use fastapi.Prelude.{
  ℕ, String, ◌≡◌, sym, ◌∙◌, ◌⊎◌, ◌||◌, inl, inr, Option, none, some, Bool, true, false, not, str_eq,
  arith, if◌then◌else◌,
}
use fastapi.Prelude.Text.{Unicode}
use fastapi.Exec.{Exec, Outcome, returned, raised, ◌>>=◌}
use fastapi.Db.{Session, Tables, Account, User, commit_call, flush_call}
use fastapi.Auth.Users.{user_by_username, user_by_email, update_user}
use fastapi.Auth.Tokens.{Crypto}
use fastapi.Auth.Password.{PasswordPolicy, is_acceptable}
use fastapi.Registration.Create.{insert_account, insert_user}
use fastapi.Jobs.Bootstrap.{
  BootstrapRequest, Action, created, promoted, BootstrapResult, bootstrapped, value_error, Target,
  target, is_user_role, matched, account_named, new_privileged, finish, create_privileged, promote,
  promote_in,
}

-- The user that the name and the email lead to.
abbrev pub resolved : String → Option String → Tables → Target
resolved username none t = target (user_by_username username t)
resolved username (some address) t = matched (user_by_username username t) (user_by_email address t)

-- The user with the role, this account, and the marks that were asked for.
unfoldable pub as_promoted : BootstrapRequest → Option ℕ → User → User
as_promoted request account_id user = record user {
  account_id = account_id;
  role = request.role;
  is_active = request.activate_user || user.is_active;
  email_verified = request.verify_email || user.email_verified;
}

-- Both bindings at once.
pub bind_assoc :
    {S A B C : Type 0} (m : Exec S A) (f : A → Exec S B) (k : B → Exec S C) (s : S)
    → ((m >>= f) >>= k) s ≡ (m >>= λ a. f a >>= k) s
bind_assoc m f k s = ground arith

module _ (db : Session) (crypto : Crypto db.State) (u : Unicode) (policy : PasswordPolicy)
    (request : BootstrapRequest) where
  open db use {State, view, saved, stage, call, serial}
  open request use {username, email, password, role}

  abbrev pub is_privileged : Bool
  is_privileged = if not (is_user_role role) then false else not (str_eq role "user")

  -- A new user with the role, for a name and an email that lead to no user.
  pub record IsCreated (t t' : Tables) : Type 0 where
    pub address : String
    pub new_password : String
    pub account : Account
    pub user : User
    pub asked : email ≡ some address
    pub given : password ≡ some new_password
    pub strong : is_acceptable u policy new_password username address ≡ true
    pub unknown : resolved username email t ≡ target none
    pub user_name : user.username ≡ username
    pub user_email : user.email ≡ address
    pub user_role : user.role ≡ role
    pub user_account : user.account_id ≡ some account.id
    pub at : State
    pub user_password : user.hashed_password ≡ crypto.hash_password at new_password
    pub user_active : user.is_active ≡ request.activate_user
    pub user_verified : user.email_verified ≡ request.verify_email
    pub rows : t' ≡ insert_user user (insert_account account t)

  -- The user that the name and the email lead to, with the role and with an account.
  pub record IsPromoted (t t' : Tables) : Type 0 where
    pub user : User
    pub account_id : ℕ
    pub known : resolved username email t ≡ target (some user)
    pub rows :
        ((user.account_id ≡ some account_id)
          × (t' ≡ update_user user.id (as_promoted request (some account_id)) t))
        ⊎ ((user.account_id ≡ none)
            × (t'
                ≡ update_user user.id
                    (as_promoted request (some account_id))
                    (insert_account (account_named account_id user.username) t)))

  abbrev pub Makes : Action → Tables → Tables → Type 0
  Makes created t t' = IsCreated t t'
  Makes promoted t t' = IsPromoted t t'

  -- The outcome, where `t` were saved before.
  abbrev pub Bootstraps : Tables → Outcome BootstrapResult × State → Type 0
  Bootstraps t (returned (bootstrapped action name r), s') =
      (is_privileged ≡ true) × Makes action t (saved s')
  Bootstraps t (returned (value_error _), s') = saved s' ≡ t
  Bootstraps t (raised _, s') =
      (saved s' ≡ t) ⊎ ((is_privileged ≡ true) × ((a : Action) × Makes a t (saved s')))

  -- A branch that ends by saving the rows `t`.
  abbrev pub Finishes : Action → Tables → State → Outcome BootstrapResult × State → Type 0
  Finishes a t s (returned (bootstrapped b name r), s') = (b ≡ a) × (saved s' ≡ t)
  Finishes a t s (returned (value_error _), s') = ⊥
  Finishes a t s (raised _, s') = (saved s' ≡ saved s) ⊎ (saved s' ≡ t)

  pub Bootstraps-intro :
      (a : Action) (t t' : Tables) (s : State) (o : Outcome BootstrapResult × State)
      → saved s ≡ t
      → is_privileged ≡ true
      → Finishes a t' s o
      → Makes a t t'
      → Bootstraps t o
  Bootstraps-intro a t t' s (returned (bootstrapped b name r), s') w p (same, h) made =
      (p, subst (λ x. Makes x t (saved s')) (sym same) (subst (Makes a t) (sym h) made))
  Bootstraps-intro a t t' s (returned (value_error _), s') w p h made = elim h [ ]
  Bootstraps-intro a t t' s (raised x, s') w p (inl h) made = inl (h ∙ w)
  Bootstraps-intro a t t' s (raised x, s') w p (inr h) made =
      inr (p, (a, subst (Makes a t) (sym h) made))

  finish-Finishes :
      (a : Action) (name : String) (s : State)
      → Finishes a (view s) s (finish db crypto u policy request a name s)
  unfolding finish
  finish-Finishes a name s =
      let s1 = (call commit_call s).1 in
      ground (arith, db.saved-commit s, db.saved-commit_raised s, db.saved-refresh s1)

  pub create_privileged-Finishes :
      (address new_password : String) (s : State)
      → let s1 = stage (insert_account (account_named (serial s) username)) s in
        let s2 = (call flush_call s1).1 in
        Finishes created
          (insert_user
            (new_privileged db crypto u policy request
              (serial s2)
              (serial s)
              address
              (crypto.hash_password s2 new_password))
            (insert_account (account_named (serial s) username) (view s)))
          s
          (create_privileged db crypto u policy request address new_password s)
  unfolding create_privileged
  create_privileged-Finishes address new_password s =
      let f = insert_account (account_named (serial s) username) in
      let s1 = stage f s in
      let s2 = (call flush_call s1).1 in
      let g = insert_user (
        new_privileged db crypto u policy request (serial s2) (serial s) address
          (crypto.hash_password s2 new_password)) in
      let s3 = stage g s2 in
      ground (
        arith,
        db.view-stage f s,
        db.saved-stage f s,
        db.view-call flush_call s1,
        db.saved-flush s1,
        db.view-stage g s2,
        db.saved-stage g s2,
        finish-Finishes created username s3,
      )

  pub promote_owner-Finishes :
      (x : User) (account_id : ℕ) (s : State)
      → Finishes promoted
          (update_user x.id (as_promoted request (some account_id)) (view s))
          s
          (promote_in db crypto u policy request x (some account_id) s)
  unfolding promote_in promote as_promoted
  promote_owner-Finishes x account_id s =
      let f = update_user x.id (as_promoted request (some account_id)) in
      ground (
        arith,
        db.view-stage f s,
        db.saved-stage f s,
        finish-Finishes promoted x.username (stage f s),
      )

  pub promote_new-Finishes :
      (x : User) (s : State)
      → Finishes promoted
          (update_user x.id
            (as_promoted request (some (serial s)))
            (insert_account (account_named (serial s) x.username) (view s)))
          s
          (promote_in db crypto u policy request x none s)
  unfolding promote_in promote as_promoted
  promote_new-Finishes x s =
      let f = insert_account (account_named (serial s) x.username) in
      let s1 = stage f s in
      let s2 = (call flush_call s1).1 in
      let g = update_user x.id (as_promoted request (some (serial s))) in
      ground (
        arith,
        db.view-stage f s,
        db.saved-stage f s,
        db.view-call flush_call s1,
        db.saved-flush s1,
        db.view-stage g s2,
        db.saved-stage g s2,
        finish-Finishes promoted x.username (stage g s2),
      )
