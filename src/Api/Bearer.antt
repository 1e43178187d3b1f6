-- ===== src/Api/Bearer.antt =====
-- Who is let in, told from the token and the saved users.
use fastapi.Prelude.{
  ℕ, String, ◌≡◌, refl, ap, ◌∙◌, inl, inr, Option, none, some, Bool, ◌&&◌, str_eq, arith,
  Bool-cases, if◌then◌else◌,
}
use fastapi.Exec.{Outcome, returned, raised, pure, ◌>>=◌}
use fastapi.Db.{Session, Tables, User, is_ops_admin, IsClean}
use fastapi.Db.Attempt.{after_select}
use fastapi.Auth.Users.{user_by_id, get_user_by_id}
use fastapi.Auth.Tokens.{Crypto, Claims}
use fastapi.Api.Access.{
  Access, granted, unauthorized, forbidden, access_user, access_subject, access_claims,
  get_current_user, operations_access, get_operations_user,
}

-- The saved user that an access token names.
abbrev pub subject_bearer : Tables → Option ℕ → Option User
subject_bearer rows none = none
subject_bearer rows (some id) = user_by_id id rows

abbrev pub bearer : Tables → Option Claims → Option User
bearer rows none = none
bearer rows (some claims) =
    if str_eq claims.token_type "access" then subject_bearer rows claims.subject else none

-- An operator is an active administrator, while the operations endpoints are enabled.
abbrev pub is_operator : Bool → User → Bool
is_operator enabled user = user.is_active && (enabled && is_ops_admin user)

abbrev pub operator_answer : Bool → Option User → Access
operator_answer enabled none = unauthorized
operator_answer enabled (some user) = if is_operator enabled user then granted user else forbidden

operations_access-access_user :
    (db : Session) (crypto : Crypto db.State) (enabled : Bool) (found : Option User)
    → operations_access db crypto enabled (access_user found) ≡ operator_answer enabled found
operations_access-access_user db crypto enabled none = refl
operations_access-access_user db crypto enabled (some user) = ground arith

module _ (db : Session) (crypto : Crypto db.State) where
  open db use {State, view, saved, now}

  -- The answer is this one, unless the query raises, and nothing is saved.
  abbrev pub Answers : Access → State → Outcome Access × State → Type 0
  Answers a s (returned b, s') = (b ≡ a) × (saved s' ≡ saved s)
  Answers a s (raised _, s') = saved s' ≡ saved s

  access_subject-Answers :
      (subject : Option ℕ) (s s' : State)
      → view s' ≡ saved s
      → saved s' ≡ saved s
      → Answers
          (access_user (subject_bearer (saved s) subject))
          s
          (access_subject db crypto subject s')
  access_subject-Answers none s s' v w = (refl, w)
  access_subject-Answers (some id) s s' v w =
      unfold get_user_by_id in
      after_select db (Answers (access_user (user_by_id id (saved s))) s) (user_by_id id)
        (λ user. pure (access_user user)) s'
        (λ s'' v' w'. (ap (λ rows. access_user (user_by_id id rows)) v, w' ∙ w)) (λ s'' w'. w' ∙ w)

  access_claims-Answers :
      (claims : Option Claims) (s s' : State)
      → view s' ≡ saved s
      → saved s' ≡ saved s
      → Answers (access_user (bearer (saved s) claims)) s (access_claims db crypto claims s')
  unfolding access_claims
  access_claims-Answers none s s' v w = (refl, w)
  access_claims-Answers (some claims) s s' v w =
      elim (Bool-cases (str_eq claims.token_type "access")) [
        | inl same ↦ rw same (access_subject-Answers claims.subject s s' v w)
        | inr differs ↦ rw differs (refl, w)
      ]

  -- `get_current_user`, in a session with no pending change: unless the query raises, the answer is
  -- the saved user that the access token names, if there is one and it is active; it is
  -- unauthorized where no user is named, and forbidden to an inactive one. Nothing is saved.
  pub get_current_user_outcome :
      (token : String) (s : State)
      → IsClean db s
      → Answers
          (access_user (bearer (saved s) (crypto.decode (now s).0 token)))
          s
          (get_current_user db crypto token s)
  unfolding get_current_user
  get_current_user_outcome token s clean =
      access_claims-Answers (crypto.decode (now s).0 token) s (now s).1 (db.view-now s ∙ clean)
        (db.saved-now s)

  Answers-operations :
      (enabled : Bool) (found : Option User) (s : State) (o : Outcome Access × State)
      → Answers (access_user found) s o
      → Answers
          (operator_answer enabled found)
          s
          (((λ _. o) >>= λ access. pure (operations_access db crypto enabled access)) s)
  Answers-operations enabled found s (returned b, s') (same, w) = (
    ap (operations_access db crypto enabled) same
        ∙ operations_access-access_user db crypto enabled found,
    w,
  )
  Answers-operations enabled found s (raised x, s') w = w

  -- `get_operations_user`, in a session with no pending change: unless the query raises, the saved user
  -- that the access token names is let in exactly if it is active, the operations endpoints are
  -- enabled, and its role is an administrator's. Other users are forbidden, and a token that
  -- names none is unauthorized. Nothing is saved.
  pub get_operations_user_outcome :
      (enabled : Bool) (token : String) (s : State)
      → IsClean db s
      → Answers
          (operator_answer enabled (bearer (saved s) (crypto.decode (now s).0 token)))
          s
          (get_operations_user db crypto enabled token s)
  unfolding get_operations_user
  get_operations_user_outcome enabled token s clean =
      Answers-operations enabled (bearer (saved s) (crypto.decode (now s).0 token)) s
        (get_current_user db crypto token s) (get_current_user_outcome token s clean)
