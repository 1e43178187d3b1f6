-- ===== src/Retry/Policies.antt =====
-- app/core/resilience.py: the choice of a policy, and the errors of a request that are retried.
use fastapi.Prelude.{
  ℕ, String, Option, none, some, Bool, true, false, List, [], ◌∷◌, ◌==◌, ◌||◌, str_eq,
  if◌then◌else◌,
}
use fastapi.Retry.Call.{RetryPolicy}

-- The settings: the policies that have a name, and the one for all others.
pub record PolicySettings : Type 0 where
  pub external : RetryPolicy
  pub external_policies : String → Option RetryPolicy
  pub external_event_policies : String → Option RetryPolicy

pub data RequestError : Type 0 where
  http_error : ℕ → RequestError
  url_error timeout_error other_error : RequestError

abbrev pub event_policy_map : List (String × String)
event_policy_map =
    ("email.send_welcome", "email_send_welcome")
    ∷ ("email.send_password_reset", "email_send_password_reset")
    ∷ ("email.send_verification", "email_send_verification")
    ∷ ("webhook.user_registered", "webhook_user_registered")
    ∷ ("webhook.worker_failure_alert", "webhook_worker_failure_alert")
    ∷ []

unfoldable pub event_policy_name : List (String × String) → String → Option String
event_policy_name [] event = none
event_policy_name ((k, name) ∷ rest) event =
    let later = event_policy_name rest event in if str_eq k event then some name else later

unfoldable pub is_one_of : List ℕ → ℕ → Bool
is_one_of [] n = false
is_one_of (m ∷ ms) n = (n == m) || is_one_of ms n

unfoldable pub is_retryable_http_error : RetryPolicy → RequestError → Bool
is_retryable_http_error policy (http_error code) = is_one_of policy.retry_on_statuses code
is_retryable_http_error policy url_error = true
is_retryable_http_error policy timeout_error = true
is_retryable_http_error policy other_error = false

module _ (settings : PolicySettings) where
  open settings use {external, external_policies, external_event_policies}

  abbrev pub or_else : Option RetryPolicy → RetryPolicy → RetryPolicy
  or_else none p = p
  or_else (some q) p = q

  unfoldable pub get_retry_policy : String → RetryPolicy
  get_retry_policy name = or_else (external_policies name) external

  abbrev pub event_policy : Option String → String → RetryPolicy
  event_policy none provider_name = get_retry_policy provider_name
  event_policy (some name) provider_name =
      or_else (external_event_policies name) (get_retry_policy provider_name)

  unfoldable pub get_event_retry_policy : String → String → RetryPolicy
  get_event_retry_policy event_name provider_name =
      event_policy (event_policy_name event_policy_map event_name) provider_name
