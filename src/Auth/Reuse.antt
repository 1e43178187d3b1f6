-- ===== src/Auth/Reuse.antt =====
-- A refresh token that was exchanged is not exchanged again.
use fastapi.Prelude.{◌≡◌, refl, ℕ, String, Option, none, some, Bool, true, false, arith}
use fastapi.Exec.{Outcome, returned, raised, ServiceResult, success, failure}
use fastapi.Db.{Session, IsClean}
use fastapi.Auth.Tokens.{Crypto, Claims, SecuritySettings, TokenPair}
use fastapi.Auth.Rotation.{refresh_tokens}
use fastapi.Auth.RotationEffect.{
  IsSigned, Rotates, Uses, is_fresh, refresh_tokens_outcome, used-not_fresh,
}

abbrev pub is_success : {A : Type 0} → Outcome (ServiceResult A) → Bool
is_success (returned (success _)) = true
is_success (returned (failure _)) = false
is_success (raised _) = false

module _ (db : Session) (crypto : Crypto db.State) (settings : SecuritySettings) where
  open db use {State, saved, now}

  Uses-not_fresh :
      (claims : Claims) (s s' : State)
      → Uses db crypto claims s s'
      → is_fresh claims (saved s') ≡ false
  Uses-not_fresh claims s s' h = go claims.exp refl
    where
      go : (e : Option ℕ) → claims.exp ≡ e → is_fresh claims (saved s') ≡ false
      go none e = ground (arith, h)
      go (some t) e = ground (arith, h, used-not_fresh claims t (saved s))

  -- What a success says of the claims of the token.
  abbrev Earns : Option Claims → State → State → Type 0
  Earns none t t' = ⊥
  Earns (some claims) t t' = (is_fresh claims (saved t) ≡ true) × Uses db crypto claims t t'

  Rotates-success :
      (c : Option Claims) (s : State) (r : Outcome (ServiceResult TokenPair)) (s' : State)
      → Rotates db crypto settings c s (r, s')
      → is_success r ≡ true
      → Earns c s s'
  Rotates-success none s (returned (success _)) s' h granted = h
  Rotates-success (some claims) s (returned (success _)) s' (_, fresh, _, used) granted =
      (fresh, used)
  Rotates-success c s (returned (failure _)) s' h granted = ground arith
  Rotates-success c s (raised _) s' h granted = ground arith

  -- Where the claims of a token never change: once `refresh_tokens` succeeds with a token, it does
  -- not succeed with that token in any session that starts from the rows this leaves.
  pub refresh_tokens_once :
      IsSigned crypto
      → (token : String) (s s' : State) → IsClean db s
      → IsClean db s'
      → saved s' ≡ saved (refresh_tokens db crypto settings token s).1
      → is_success (refresh_tokens db crypto settings token s).0 ≡ true
      → is_success (refresh_tokens db crypto settings token s').0 ≡ false
  refresh_tokens_once signed token s s' clean clean' next first =
      let (r, s1) = refresh_tokens db crypto settings token s in
      let (r', s2) = refresh_tokens db crypto settings token s' in
      go (crypto.decode (now s).0 token) (crypto.decode (now s').0 token) refl refl
        (Rotates-success (crypto.decode (now s).0 token) s r s1
          (refresh_tokens_outcome db crypto settings signed token s clean) first)
        (Rotates-success (crypto.decode (now s').0 token) s' r' s2
          (refresh_tokens_outcome db crypto settings signed token s' clean'))
    where
      s1 : State
      s1 = (refresh_tokens db crypto settings token s).1

      r' : Outcome (ServiceResult TokenPair)
      r' = (refresh_tokens db crypto settings token s').0

      s2 : State
      s2 = (refresh_tokens db crypto settings token s').1

      go :
          (c c' : Option Claims)
          → crypto.decode (now s).0 token ≡ c
          → crypto.decode (now s').0 token ≡ c'
          → Earns c s s1
          → (is_success r' ≡ true → Earns c' s' s2)
          → is_success r' ≡ false
      go none c' h h' e f = ground (arith, e)
      go (some c) none h h' e f = ground (arith, f)
      go (some c) (some c') h h' e f =
          ground
            (arith, f, next, signed (now s).0 (now s').0 token c c' h h', Uses-not_fresh c s s1 e.1)
