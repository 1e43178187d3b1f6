-- ===== src/Auth/RotationEffect.antt =====
-- What a refresh and a logout save, and that a refresh token is used at most once.
use fastapi.Prelude.{
  ℕ, String, ◌≡◌, refl, sym, ap, ◌∙◌, ◌⊎◌, inl, inr, Option, none, some, Bool, true, false, arith,
  not, str_eq, eq_iff, is_some, List, [], ◌∷◌, find, ◌++◌,
}
use fastapi.Exec.{Outcome, returned, raised, ServiceResult, success}
use fastapi.Db.{Session, Tables, User, RevokedToken, IsClean, query_call}
use fastapi.Db.Attempt.{after_select}
use fastapi.Auth.Users.{user_by_id, get_user_by_id}
use fastapi.Auth.Tokens.{
  Crypto, Claims, SecuritySettings, TokenPair, create_token_pair, create_token, insert_revoked,
  revoked_row, is_token_revoked, revoke_token,
}
use fastapi.Auth.Effects.{save-Saves}
use fastapi.Auth.Rotation.{
  Revocation, revoked, not_stored, not_decoded, expiry_of, revoke_until, revoke_claims,
  logout_claims, logout_refresh_token, rotate, rotate_for, refresh_claims, refresh_tokens,
}

-- The row that a use of the token leaves.
abbrev pub used_row : Claims → ℕ → RevokedToken
used_row claims expires_at = record {
  jti = claims.jti;
  token_type = claims.token_type;
  expires_at = expires_at;
}

-- The active user that the token names.
abbrev pub names_active : Tables → Claims → Bool
names_active rows claims = elim claims.subject [
  | none ↦ false
  | some id ↦ elim (user_by_id id rows) [ none ↦ false | some u ↦ u.is_active ]
]

-- Two times at which a token decodes give the same claims: a signed token is never changed.
abbrev pub IsSigned : {S : Type 0} → Crypto S → Type 0
IsSigned crypto =
    (t t' : ℕ) (token : String) (c c' : Claims)
    → crypto.decode t token ≡ some c
    → crypto.decode t' token ≡ some c'
    → c' ≡ c

-- The token has no row in the list of revoked tokens.
abbrev pub is_fresh : Claims → Tables → Bool
is_fresh claims rows = not (is_some (revoked_row claims.jti rows))

module _ (db : Session) (crypto : Crypto db.State) where
  open db use {State, view, saved, now}

  -- The saved rows, where the claims are used up at most once.
  abbrev pub Uses : Claims → State → State → Type 0
  Uses claims s s' = elim claims.exp [
    | none ↦ ⊥
    | some e ↦ saved s' ≡ insert_revoked (used_row claims e) (saved s)
  ]

  abbrev Revokes : Claims → State → Outcome Revocation × State → Type 0
  Revokes claims s (returned revoked, s') = Uses claims s s'
  Revokes claims s (returned not_stored, s') = (saved s' ≡ saved s) ⊎ Uses claims s s'
  Revokes claims s (returned not_decoded, s') = saved s' ≡ saved s
  Revokes claims s (raised _, s') = ⊥

  revoke_until-Revokes :
      (claims : Claims) (exp : Option ℕ) (s : State)
      → view s ≡ saved s
      → (exp ≡ none) ⊎ (exp ≡ claims.exp)
      → Revokes claims s (revoke_until db crypto claims exp s)
  unfolding revoke_token
  revoke_until-Revokes claims none s clean h = refl
  revoke_until-Revokes claims (some e) s clean h =
      ground
        (arith, clean, save-Saves db (insert_revoked (used_row claims e)) (used_row claims e) s)

  expiry_signed :
      IsSigned crypto
      → (token : String) (claims : Claims) (t t' : ℕ) → crypto.decode t token ≡ some claims
      → let exp = expiry_of db crypto (crypto.decode t' token) in (exp ≡ none) ⊎ (exp ≡ claims.exp)
  expiry_signed signed token claims t t' h = go (crypto.decode t' token) refl
    where
      go :
          (r : Option Claims)
          → crypto.decode t' token ≡ r
          → (expiry_of db crypto r ≡ none) ⊎ (expiry_of db crypto r ≡ claims.exp)
      go none e = inl refl
      go (some c) e = inr (ap (λ c. c.exp) (signed t t' token claims c h e))

  revoke_claims-Revokes :
      IsSigned crypto
      → (token : String) (claims : Claims) (t : ℕ) (s : State) → crypto.decode t token ≡ some claims
      → view s ≡ saved s
      → Revokes claims s (revoke_claims db crypto claims token s)
  unfolding revoke_claims
  revoke_claims-Revokes signed token claims t s h clean =
      let t' = (now s).0 in
      let s' = (now s).1 in
      let exp = expiry_of db crypto (crypto.decode t' token) in
      ground (
        arith,
        clean,
        db.view-now s,
        db.saved-now s,
        revoke_until-Revokes claims exp s' (db.view-now s ∙ clean ∙ sym (db.saved-now s))
            (expiry_signed signed token claims t t' h),
      )

  -- A logout: what it asks of the token, and what it saves.
  abbrev pub LogsOut : Option Claims → State → Outcome (ServiceResult (Unit {0})) × State → Type 0
  LogsOut none s (returned (success _), s') = ⊥
  LogsOut none s (_, s') = saved s' ≡ saved s
  LogsOut (some claims) s (returned (success _), s') =
      (str_eq claims.token_type "refresh" ≡ true)
      × (is_fresh claims (saved s) ≡ true)
      × Uses claims s s'
  LogsOut (some claims) s (_, s') =
      (saved s' ≡ saved s) ⊎ ((is_fresh claims (saved s) ≡ true) × Uses claims s s')

  -- `logout_refresh_token`, in a session with no pending change, where the claims of a token never
  -- change. It succeeds only with a token that decodes, is a refresh token and has no row among the
  -- revoked tokens, and then saves exactly its row. Any other outcome saves no change, or exactly the
  -- row of a token that had none.
  pub logout_refresh_token_outcome :
      IsSigned crypto
      → (token : String) (s : State) → IsClean db s
      → LogsOut (crypto.decode (now s).0 token) s (logout_refresh_token db crypto token s)
  unfolding logout_refresh_token logout_claims is_token_revoked
  logout_refresh_token_outcome signed token s clean = go (crypto.decode (now s).0 token) refl
    where
      s1 : State
      s1 = (now s).1

      go :
          (r : Option Claims)
          → crypto.decode (now s).0 token ≡ r
          → LogsOut r s (logout_claims db crypto token r s1)
      go none h = db.saved-now s
      go (some claims) h =
          let s2 = (db.call query_call s1).1 in
          ground (
            arith,
            clean,
            db.view-now s,
            db.saved-now s,
            db.view-call query_call s1,
            db.saved-query s1,
            revoke_claims-Revokes signed token claims (now s).0 s2 h,
          )

  module _ (settings : SecuritySettings) where
    -- A refresh: what it asks of the token, and what it saves.
    abbrev pub Rotates : Option Claims → State → Outcome (ServiceResult TokenPair) × State → Type 0
    Rotates none s (returned (success _), s') = ⊥
    Rotates none s (_, s') = saved s' ≡ saved s
    Rotates (some claims) s (returned (success _), s') =
        (str_eq claims.token_type "refresh" ≡ true)
        × (is_fresh claims (saved s) ≡ true)
        × (names_active (saved s) claims ≡ true)
        × Uses claims s s'
    Rotates (some claims) s (_, s') =
        (saved s' ≡ saved s) ⊎ ((is_fresh claims (saved s) ≡ true) × Uses claims s s')

    rotate-Rotates :
        IsSigned crypto
        → (token : String) (claims : Claims) (t : ℕ) (user : Option User) (s s0 : State)
        → crypto.decode t token ≡ some claims
        → view s ≡ saved s
        → saved s ≡ saved s0
        → str_eq claims.token_type "refresh" ≡ true
        → is_fresh claims (saved s0) ≡ true
        → elim user [ none ↦ false | some u ↦ u.is_active ] ≡ names_active (saved s0) claims
        → Rotates (some claims) s0 (rotate db crypto settings token claims user s)
    unfolding rotate create_token_pair create_token
    rotate-Rotates signed token claims t none s s0 h clean same kind fresh active = inl same
    rotate-Rotates signed token claims t (some user) s s0 h clean same kind fresh active =
        let s1 = (revoke_claims db crypto claims token s).1 in
        ground (
          arith,
          active,
          revoke_claims-Revokes signed token claims t s h clean,
          db.saved-now s1,
          db.saved-now (now s1).1,
        )

    rotate_for-Rotates :
        IsSigned crypto
        → (token : String) (claims : Claims) (t : ℕ) (subject : Option ℕ) (s s0 : State)
        → crypto.decode t token ≡ some claims
        → claims.subject ≡ subject
        → view s ≡ saved s
        → saved s ≡ saved s0
        → str_eq claims.token_type "refresh" ≡ true
        → is_fresh claims (saved s0) ≡ true
        → Rotates (some claims) s0 (rotate_for db crypto settings token claims subject s)
    unfolding rotate_for get_user_by_id
    rotate_for-Rotates signed token claims t none s s0 h subject clean same kind fresh = inl same
    rotate_for-Rotates signed token claims t (some id) s s0 h subject clean same kind fresh =
        after_select db (Rotates (some claims) s0) (user_by_id id)
          (rotate db crypto settings token claims) s
          (λ s' v w.
            rotate-Rotates signed token claims t (user_by_id id (view s)) s' s0 h
              (v ∙ clean ∙ sym w) (w ∙ same) kind fresh (ground (arith, clean, same, subject)))
          (λ s' w. inl (w ∙ same))

    -- `refresh_tokens`, in a session with no pending change, where the claims of a token never
    -- change. It succeeds only with a token that decodes, is a refresh token, has no row among the
    -- revoked tokens and names an active user, and then saves exactly its row. Any other outcome
    -- saves no change, or exactly the row of a token that had none.
    pub refresh_tokens_outcome :
        IsSigned crypto
        → (token : String) (s : State) → IsClean db s
        → Rotates (crypto.decode (now s).0 token) s (refresh_tokens db crypto settings token s)
    unfolding refresh_tokens refresh_claims is_token_revoked
    refresh_tokens_outcome signed token s clean = go (crypto.decode (now s).0 token) refl
      where
        s1 : State
        s1 = (now s).1

        go :
            (r : Option Claims)
            → crypto.decode (now s).0 token ≡ r
            → Rotates r s (refresh_claims db crypto settings token r s1)
        go none h = db.saved-now s
        go (some claims) h =
            let s2 = (db.call query_call s1).1 in
            let v = db.view-call query_call s1 in
            let w = db.saved-query s1 ∙ db.saved-now s in
            ground (
              arith,
              clean,
              db.view-now s,
              db.saved-now s,
              v,
              db.saved-query s1,
              rotate_for-Rotates signed token claims (now s).0 claims.subject s2 s h refl,
            )

-- A token whose row is saved is no longer fresh.
find_added :
    {A : Type 0} (p : A → Bool) (xs : List A) (x : A)
    → p x ≡ true
    → is_some (find p (xs ++ x ∷ [])) ≡ true
unfolding find
find_added p [] x h = ground arith
find_added p (y ∷ ys) x h = ground (arith, find_added p ys x h)

pub used-not_fresh :
    (claims : Claims) (e : ℕ) (rows : Tables)
    → is_fresh claims (insert_revoked (used_row claims e) rows) ≡ false
unfolding revoked_row insert_revoked
used-not_fresh claims e rows = ap not (
    find_added (λ r. str_eq r.jti claims.jti) rows.revoked_tokens (used_row claims e)
      ((eq_iff claims.jti claims.jti).1 refl))
