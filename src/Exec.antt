-- ===== src/Exec.antt =====
-- Python calls that read and change a state and may raise. What was written before a raise stays
-- written, so the state comes back beside the exception too. `ServiceResult` of
-- app/services/result.py is the value that the service methods return.
use fastapi.Prelude.{Bool, true, false}

-- The repositories raise `RepositoryError`; `other` is any other exception.
pub data Exception : Type 0 where
  repository_error other : Exception

pub data Outcome {ℓ} (A : Type ℓ) : Type ℓ where
  returned : A → Outcome A
  raised : Exception → Outcome A

abbrev pub Exec {ℓ} : Type ℓ → Type ℓ → Type ℓ
Exec S A = S → Outcome A × S

module _ {ℓ} {S A : Type ℓ} where
  abbrev pub pure : A → Exec S A
  pure a s = (returned a, s)

  abbrev pub raise : Exception → Exec S A
  raise e s = (raised e, s)

  -- `try: m except Exception: h`
  abbrev pub try_except : Exec S A → Exec S A → Exec S A
  try_except m h s = let (r, s') = m s in elim r [ returned a ↦ (returned a, s') | raised _ ↦ h s' ]

  -- `try: m except RepositoryError: h`
  abbrev pub try_repository : Exec S A → Exec S A → Exec S A
  try_repository m h s =
      let (r, s') = m s in
      elim r [
        | returned a ↦ (returned a, s')
        | raised e ↦ elim e [ repository_error ↦ h s' | other ↦ (raised other, s') ]
      ]

module _ {ℓ} {S A B : Type ℓ} where
  infixl 5 ◌>>=◌ ◌>>◌
  abbrev pub ◌>>=◌ : Exec S A → (A → Exec S B) → Exec S B
  ◌>>=◌ m f s = let (r, s') = m s in elim r [ returned a ↦ f a s' | raised e ↦ (raised e, s') ]

  abbrev pub ◌>>◌ : Exec S A → Exec S B → Exec S B
  m >> k = m >>= λ _. k

-- `ErrorCode`, the codes of the service errors.
pub data ErrorCode : Type 0 where
  auth_invalid_credentials auth_account_locked auth_email_not_verified auth_inactive_user :
      ErrorCode
  auth_invalid_token auth_refresh_reused auth_rate_limited infra_db_unavailable : ErrorCode
  security_registration_disabled security_weak_password : ErrorCode
  security_unsafe_webhook_target billing_no_entitlement billing_quota_exhausted : ErrorCode
  billing_entitlement_expired billing_feature_not_enabled billing_invalid_entitlement : ErrorCode
  billing_reservation_not_found billing_invalid_reservation_state user_conflict : ErrorCode
  user_not_found item_not_found item_forbidden item_already_archived item_not_archived : ErrorCode
  item_persist_failed common_internal_error : ErrorCode

-- `ServiceResult`, made by `success` or by `failure`; the message, a fixed text, is left out.
pub data ServiceResult {ℓ} (A : Type ℓ) : Type ℓ where
  success : A → ServiceResult A
  failure : ErrorCode → ServiceResult A

-- The property `ok`.
abbrev pub is_ok {ℓ} : {A : Type ℓ} → ServiceResult A → Bool
is_ok (success _) = true
is_ok (failure _) = false
