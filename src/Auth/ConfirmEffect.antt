-- ===== src/Auth/ConfirmEffect.antt =====
-- What the confirmations by token ask for, and what they save.
use fastapi.Prelude.{
  ℕ, String, ◌≡◌, refl, sym, ap, ◌∙◌, inl, inr, Option, none, some, str_eq, if◌then◌else◌,
  Bool-cases,
}
use fastapi.Exec.{
  Exec, Outcome, returned, raised, other, ServiceResult, failure, auth_invalid_token,
}
use fastapi.Db.{Session, Tables, User, IsClean}
use fastapi.Db.Attempt.{after_select}
use fastapi.Auth.Users.{user_by_id, get_user_by_id}
use fastapi.Auth.Tokens.{Crypto, Claims}
use fastapi.Auth.Confirm.{Notice, with_user, with_claims, with_subject, with_token_user}

-- The user that a token of this kind names, by key and by name.
abbrev pub named_user : Claims → Option User → Option User
named_user claims none = none
named_user claims (some u) = if str_eq u.username claims.username then some u else none

abbrev pub subject_user : Tables → Claims → Option ℕ → Option User
subject_user rows claims none = none
subject_user rows claims (some id) = named_user claims (user_by_id id rows)

abbrev pub token_user : String → Tables → Option Claims → Option User
token_user kind rows none = none
token_user kind rows (some claims) =
    if str_eq claims.token_type kind then subject_user rows claims claims.subject else none

module _ (db : Session) (crypto : Crypto db.State) where
  open db use {State, view, saved, now, stage, call}

  -- Any property of the outcome that holds of the two refusals, and of what follows where the token
  -- names a user.
  module _ (kind : String) (k : User → Exec State (ServiceResult Notice)) (s : State)
      (P : Outcome (ServiceResult Notice) × State → Type 0)
      (refused : (s' : State) → saved s' ≡ saved s → P (returned (failure auth_invalid_token), s'))
      (broken : (s' : State) → saved s' ≡ saved s → P (raised other, s')) where
    with_user_lem :
        (claims : Claims) (found : Option User) (s' : State)
        → saved s' ≡ saved s
        → ((u : User) → named_user claims found ≡ some u → P (k u s'))
        → P (with_user db crypto kind k claims found s')
    with_user_lem claims none s' w good = refused s' w
    with_user_lem claims (some u) s' w good =
        elim (Bool-cases (str_eq u.username claims.username)) [
          | inl same ↦ rw same (good u (rw same refl))
          | inr differs ↦ rw differs (refused s' w)
        ]

    with_subject_lem :
        (claims : Claims) (subject : Option ℕ) (s' : State)
        → view s' ≡ saved s
        → saved s' ≡ saved s
        → ((u : User) (s'' : State)
            → subject_user (saved s) claims subject ≡ some u
            → view s'' ≡ saved s
            → saved s'' ≡ saved s
            → P (k u s''))
        → P (with_subject db crypto kind k claims subject s')
    with_subject_lem claims none s' v w good = broken s' w
    with_subject_lem claims (some id) s' v w good =
        unfold get_user_by_id in
        after_select db P (user_by_id id) (with_user db crypto kind k claims) s'
          (λ s'' v' w'. with_user_lem claims (user_by_id id (view s')) s'' (w' ∙ w) (λ u h.
            good u s'' (ap (λ rows. named_user claims (user_by_id id rows)) (sym v) ∙ h) (v' ∙ v)
              (w' ∙ w)))
          (λ s'' w'. broken s'' (w' ∙ w))

    with_claims_lem :
        (claims : Option Claims) (s' : State)
        → view s' ≡ saved s
        → saved s' ≡ saved s
        → ((u : User) (s'' : State)
            → token_user kind (saved s) claims ≡ some u
            → view s'' ≡ saved s
            → saved s'' ≡ saved s
            → P (k u s''))
        → P (with_claims db crypto kind k claims s')
    unfolding with_claims
    with_claims_lem none s' v w good = refused s' w
    with_claims_lem (some claims) s' v w good = elim (Bool-cases (str_eq claims.token_type kind)) [
      | inl same ↦
          rw same
            (with_subject_lem claims claims.subject s' v w (λ u s'' h. good u s'' (rw same h)))
      | inr differs ↦ rw differs (refused s' w)
    ]

    pub with_token_user_lem :
        (token : String)
        → IsClean db s
        → ((u : User) (s' : State)
            → token_user kind (saved s) (crypto.decode (now s).0 token) ≡ some u
            → view s' ≡ saved s
            → saved s' ≡ saved s
            → P (k u s'))
        → P (with_token_user db crypto kind k token s)
    unfolding with_token_user
    with_token_user_lem token clean good =
        with_claims_lem (crypto.decode (now s).0 token) (now s).1 (db.view-now s ∙ clean)
          (db.saved-now s) good
