-- ===== src/Api/Errors.antt =====
-- app/api/errors.py: the answer to a result of a service.
use fastapi.Prelude.{ℕ, Option, none, some}
use fastapi.Exec.{
  ErrorCode, ServiceResult, success, failure, auth_invalid_credentials, auth_account_locked,
  auth_email_not_verified, auth_inactive_user, auth_invalid_token, auth_refresh_reused,
  auth_rate_limited, infra_db_unavailable, security_weak_password, billing_no_entitlement,
  billing_quota_exhausted, billing_entitlement_expired, billing_feature_not_enabled,
  billing_invalid_entitlement, billing_reservation_not_found, billing_invalid_reservation_state,
  user_conflict, user_not_found, item_persist_failed, common_internal_error, item_not_found,
  item_forbidden, item_already_archived, item_not_archived, security_registration_disabled,
  security_unsafe_webhook_target,
}

-- A value, or `AppException` with its status and code, or `TooManyRequestsException` with its delay.
pub data Reply (A : Type 0) : Type 0 where
  replied : A → Reply A
  app_exception : ℕ → ErrorCode → Reply A
  too_many : ℕ → Reply A

-- `ERROR_STATUS_MAP`, `none` for the codes that it does not have.
unfoldable pub status_of : ErrorCode → Option ℕ
status_of auth_invalid_credentials = some 401
status_of auth_account_locked = some 423
status_of auth_email_not_verified = some 403
status_of auth_inactive_user = some 403
status_of auth_invalid_token = some 401
status_of auth_refresh_reused = some 401
status_of auth_rate_limited = some 429
status_of infra_db_unavailable = some 503
status_of security_weak_password = some 400
status_of billing_no_entitlement = some 403
status_of billing_quota_exhausted = some 403
status_of billing_entitlement_expired = some 403
status_of billing_feature_not_enabled = some 403
status_of billing_invalid_entitlement = some 400
status_of billing_reservation_not_found = some 404
status_of billing_invalid_reservation_state = some 409
status_of user_conflict = some 400
status_of user_not_found = some 404
status_of item_persist_failed = some 500
status_of common_internal_error = some 500
status_of item_not_found = some 404
status_of item_forbidden = some 403
status_of item_already_archived = some 409
status_of item_not_archived = some 409
status_of security_registration_disabled = none
status_of security_unsafe_webhook_target = none

abbrev pub or_server_error : Option ℕ → ℕ
or_server_error none = 500
or_server_error (some status) = status

unfoldable pub unwrap_result : {A : Type 0} → ServiceResult A → Reply A
unwrap_result (success value) = replied value
unwrap_result (failure code) = app_exception (or_server_error (status_of code)) code
