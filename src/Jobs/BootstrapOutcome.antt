-- ===== src/Jobs/BootstrapOutcome.antt =====
-- The outcome of the bootstrap, from the target that is found.
use mathlib.Core.Path.{subst}
use fastapi.Prelude.{
  ℕ, String, ◌≡◌, refl, sym, ap, ◌∙◌, inl, inr, Option, none, some, true, str_eq, arith, Bool-cases,
}
use fastapi.Prelude.Text.{Unicode}
use fastapi.Exec.{pure, ◌>>=◌}
use fastapi.Db.{Session, Tables, User, IsClean, flush_call}
use fastapi.Db.Attempt.{after_select}
use fastapi.Auth.Users.{
  user_by_username, user_by_email, get_user_by_username, get_user_by_email, update_user,
}
use fastapi.Auth.Tokens.{Crypto}
use fastapi.Auth.Password.{
  PasswordPolicy, PasswordFault, validate_password_policy, validate_password_policy_lem,
}
use fastapi.Registration.Create.{insert_account, insert_user}
use fastapi.Jobs.Bootstrap.{
  BootstrapRequest, created, promoted, Target, target, conflicting, is_user_role, matched,
  account_named, new_privileged, resolve_by, resolve_target_user, create_privileged,
  create_if_strong, create_with, promote_in, promote_matching, bootstrap_target,
  bootstrap_platform_admin,
}
use fastapi.Jobs.BootstrapEffect.{
  as_promoted, resolved, bind_assoc, is_privileged, Bootstraps, Bootstraps-intro,
  create_privileged-Finishes, promote_owner-Finishes, promote_new-Finishes,
}

module _ (db : Session) (crypto : Crypto db.State) (u : Unicode) (policy : PasswordPolicy)
    (request : BootstrapRequest) where
  open db use {State, view, saved, stage, call, serial}
  open request use {username, email, password, role}

  -- The target has been found, and nothing is pending.
  module _ (t : Tables) (s : State) (v : view s ≡ t) (w : saved s ≡ t)
      (p : is_privileged db crypto u policy request ≡ true) where
    promote_in-Bootstraps :
        (x : User) (account : Option ℕ)
        → x.account_id ≡ account
        → resolved username email t ≡ target (some x)
        → Bootstraps db crypto u policy request t
            (promote_in db crypto u policy request x account s)
    promote_in-Bootstraps x (some account_id) h known =
        let t' = update_user x.id (as_promoted request (some account_id)) (view s) in
        Bootstraps-intro db crypto u policy request promoted t t' s
          (promote_in db crypto u policy request x (some account_id) s) w p
          (promote_owner-Finishes db crypto u policy request x account_id s)
          (record {
            user = x;
            account_id = account_id;
            known = known;
            rows = inl (h, ap (update_user x.id (as_promoted request (some account_id))) v);
          })
    promote_in-Bootstraps x none h known =
        let f = insert_account (account_named (serial s) x.username) in
        let g = update_user x.id (as_promoted request (some (serial s))) in
        Bootstraps-intro db crypto u policy request promoted t (g (f (view s))) s
          (promote_in db crypto u policy request x none s) w p
          (promote_new-Finishes db crypto u policy request x s)
          (record {
            user = x;
            account_id = serial s;
            known = known;
            rows = inr (h, ap (λ rows. g (f rows)) v);
          })

    promote_matching-Bootstraps :
        (asked : Option String) (x : User)
        → resolved username email t ≡ target (some x)
        → Bootstraps db crypto u policy request t
            (promote_matching db crypto u policy request asked x s)
    promote_matching-Bootstraps none x known = promote_in-Bootstraps x x.account_id refl known
    promote_matching-Bootstraps (some address) x known =
        elim (Bool-cases (str_eq x.email address)) [
          | inl same ↦ rw same (promote_in-Bootstraps x x.account_id refl known)
          | inr differs ↦ rw differs w
        ]

    create_if_strong-Bootstraps :
        (address new_password : String) (fault : Option PasswordFault)
        → validate_password_policy u policy new_password username address ≡ fault
        → email ≡ some address
        → password ≡ some new_password
        → resolved username email t ≡ target none
        → Bootstraps db crypto u policy request t
            (create_if_strong db crypto u policy request fault address new_password s)
    create_if_strong-Bootstraps address new_password (some x) h asked given unknown = w
    create_if_strong-Bootstraps address new_password none h asked given unknown =
        let s1 = stage (insert_account (account_named (serial s) username)) s in
        let s2 = (call flush_call s1).1 in
        let account = account_named (serial s) username in
        let user =
          new_privileged db crypto u policy request (serial s2) (serial s) address
            (crypto.hash_password s2 new_password) in
        Bootstraps-intro db crypto u policy request created t
          (insert_user user (insert_account account (view s))) s
          (create_privileged db crypto u policy request address new_password s) w p
          (create_privileged-Finishes db crypto u policy request address new_password s)
          (record {
            address = address;
            new_password = new_password;
            account = account;
            user = user;
            asked = asked;
            given = given;
            strong = (validate_password_policy_lem u policy new_password username address).0 h;
            unknown = unknown;
            user_name = refl;
            user_email = refl;
            user_role = refl;
            user_account = refl;
            at = s2;
            user_password = refl;
            user_active = refl;
            user_verified = refl;
            rows = ap (λ rows. insert_user user (insert_account account rows)) v;
          })

    create_with-Bootstraps :
        (asked given : Option String)
        → email ≡ asked
        → password ≡ given
        → resolved username email t ≡ target none
        → Bootstraps db crypto u policy request t
            (create_with db crypto u policy request asked given s)
    create_with-Bootstraps none none h k unknown = w
    create_with-Bootstraps none (some x) h k unknown = w
    create_with-Bootstraps (some a) none h k unknown = w
    create_with-Bootstraps (some a) (some x) h k unknown =
        create_if_strong-Bootstraps a x (validate_password_policy u policy x username a) refl h k
          unknown

    bootstrap_target-Bootstraps :
        (found : Target)
        → resolved username email t ≡ found
        → Bootstraps db crypto u policy request t
            (bootstrap_target db crypto u policy request found s)
    unfolding bootstrap_target
    bootstrap_target-Bootstraps conflicting h = w
    bootstrap_target-Bootstraps (target none) h = create_with-Bootstraps email password refl refl h
    bootstrap_target-Bootstraps (target (some x)) h = promote_matching-Bootstraps email x h

  resolve_by-Bootstraps :
      (asked : Option String) (t : Tables) (s : State)
      → email ≡ asked
      → view s ≡ t
      → saved s ≡ t
      → is_privileged db crypto u policy request ≡ true
      → Bootstraps db crypto u policy request t (
          (resolve_by db crypto u policy request asked (user_by_username username t)
              >>= bootstrap_target db crypto u policy request)
            s)
  resolve_by-Bootstraps none t s h v w p =
      bootstrap_target-Bootstraps t s v w p (target (user_by_username username t))
        (ap (λ e. resolved username e t) h)
  resolve_by-Bootstraps (some a) t s h v w p =
      unfold get_user_by_email in
      let k = bootstrap_target db crypto u policy request in
      let m = matched (user_by_username username t) in
      subst (Bootstraps db crypto u policy request t)
        (sym (bind_assoc (get_user_by_email db a) (λ x. pure (m x)) k s))
        (after_select db (Bootstraps db crypto u policy request t) (user_by_email a) (λ x. k (m x))
          s
          (λ s' v' w'.
            bootstrap_target-Bootstraps t s' (v' ∙ v) (w' ∙ w) p (m (user_by_email a (view s)))
              (ap (λ e. resolved username e t) h ∙ ap (λ rows. m (user_by_email a rows)) (sym v)))
          (λ s' w'. inl (w' ∙ w)))

  bootstrap_privileged :
      (s : State)
      → IsClean db s
      → is_privileged db crypto u policy request ≡ true
      → Bootstraps db crypto u policy request (saved s) (
          (resolve_target_user db crypto u policy request
              >>= bootstrap_target db crypto u policy request)
            s)
  unfolding resolve_target_user get_user_by_username
  bootstrap_privileged s clean p =
      let k = bootstrap_target db crypto u policy request in
      let r = resolve_by db crypto u policy request email in
      subst (Bootstraps db crypto u policy request (saved s))
        (sym (bind_assoc (get_user_by_username db username) r k s))
        (after_select db (Bootstraps db crypto u policy request (saved s))
          (user_by_username username) (λ x. r x >>= k) s
          (λ s' v' w'.
            subst
              (λ rows.
                Bootstraps db crypto u policy request (saved s)
                  ((r (user_by_username username rows) >>= k) s'))
              (sym clean) (resolve_by-Bootstraps email (saved s) s' refl (v' ∙ clean) w' p))
          (λ s' w'. inl w'))

  -- `bootstrap_platform_admin`, in a session with no pending change. If it returns, the role is one of the
  -- privileged ones, and one of two changes is saved, as it says: a new user with the role and a
  -- new account and with the hash of a password that the policy accepts, where the name and the
  -- email led to no user;
  -- or, in the row of the one user they led to, the role, an account if it had none, and the marks
  -- that were asked for. If it refuses, nothing is saved; if a call raises, either nothing or all
  -- of the change.
  pub bootstrap_platform_admin_outcome :
      (s : State)
      → IsClean db s
      → Bootstraps db crypto u policy request
          (saved s)
          (bootstrap_platform_admin db crypto u policy request s)
  unfolding bootstrap_platform_admin
  bootstrap_platform_admin_outcome s clean = elim (Bool-cases (is_user_role role)) [
    | inl of_user ↦ elim (Bool-cases (str_eq role "user")) [
      | inl plain ↦ ground (arith, of_user, plain)
      | inr special ↦
          let step : bootstrap_platform_admin db crypto u policy request s
              ≡ (resolve_target_user db crypto u policy request
                    >>= bootstrap_target db crypto u policy request)
                  s =
            ground (arith, of_user, special) in
          rw step (bootstrap_privileged s clean (ground (arith, of_user, special)))
    ]
    | inr foreign ↦ ground (arith, foreign)
  ]
