-- ===== src/Settings/Validation.antt =====
-- app/core/settings/validation.py. A fault stands for the text of its message; the error that is raised
-- joins them. `strip` is the method of Python's texts.
use fastapi.Prelude.{
  String, Option, none, some, Bool, true, false, not, ◌&&◌, ◌||◌, List, [], ◌∷◌, str_eq, ltb,
  if◌then◌else◌,
}
use fastapi.Prelude.Text.{Unicode, text_length, is_nonempty}
use text.Mathlib.Text.{starts_with}

-- The settings that are read, each with its section.
pub record DeploymentSettings : Type 0 where
  pub app_env : String
  pub app_debug : Bool
  pub app_public_base_url : String
  pub security_secret_key : String
  pub security_issuer : String
  pub security_audience : String
  pub security_email_verification_enabled : Bool
  pub database_url : String
  pub api_cors_origins : List String
  pub api_public_registration_enabled : Bool
  pub auth_rate_limit_enabled : Bool
  pub auth_rate_limit_backend : String
  pub auth_rate_limit_redis_url : Option String
  pub cache_enabled : Bool
  pub cache_backend : String
  pub cache_redis_url : Option String
  pub metrics_enabled : Bool
  pub metrics_auth_token : Option String
  pub webhook_enabled : Bool
  pub webhook_dry_run : Bool
  pub webhook_provider : String
  pub webhook_allowed_hosts : List String
  pub ops_enabled : Bool
  pub worker_enabled : Bool
  pub worker_broker_url : Option String
  pub worker_idempotency_enabled : Bool
  pub worker_idempotency_backend : String
  pub worker_idempotency_redis_url : Option String

pub data SettingFault : Type 0 where
  default_secret_deployed debug_on weak_secret default_issuer default_audience : SettingFault
  no_public_base_url sqlite_database no_cors_origins memory_rate_limit : SettingFault
  no_rate_limit_redis no_cache_redis no_metrics_token no_webhook_hosts : SettingFault
  registration_with_operations no_worker_broker no_idempotency_redis : SettingFault

-- The settings are returned, or `ValueError` is raised.
pub data Validated : Type 0 where
  accepted : Validated
  rejected : List SettingFault → Validated

abbrev pub default_secret_key : String
default_secret_key = "change-me-to-a-32-character-minimum-secret"

abbrev pub default_issuer_name : String
default_issuer_name = "fastapi-template"

abbrev pub default_audience_name : String
default_audience_name = "fastapi-template-users"

-- `bool(value)`
abbrev pub is_set : Option String → Bool
is_set none = false
is_set (some text) = is_nonempty text

abbrev pub is_filled : List String → Bool
is_filled [] = false
is_filled (_ ∷ _) = true

-- The messages that are appended, each under its test.
unfoldable pub collected : List (Bool × SettingFault) → List SettingFault
collected [] = []
collected ((test, fault) ∷ rest) =
    let later = collected rest in if test then fault ∷ later else later

abbrev pub raise_if_any : List SettingFault → Validated
raise_if_any [] = accepted
raise_if_any (x ∷ xs) = rejected (x ∷ xs)

module _ (u : Unicode) (strip : String → String) (settings : DeploymentSettings) where
  open settings use {
    app_env, app_debug, app_public_base_url, security_secret_key, security_issuer,
    security_audience, security_email_verification_enabled, database_url, api_cors_origins,
    api_public_registration_enabled, auth_rate_limit_enabled, auth_rate_limit_backend,
    auth_rate_limit_redis_url, cache_enabled, cache_backend, cache_redis_url, metrics_enabled,
    metrics_auth_token, webhook_enabled, webhook_dry_run, webhook_provider, webhook_allowed_hosts,
    ops_enabled, worker_enabled, worker_broker_url, worker_idempotency_enabled,
    worker_idempotency_backend, worker_idempotency_redis_url,
  }

  unfoldable pub env : String
  env = strip (u.lower app_env)

  unfoldable pub is_production : Bool
  is_production = str_eq env "production"

  unfoldable pub is_local_like : Bool
  is_local_like =
      str_eq env "development"
      || (str_eq env "dev" || (str_eq env "local" || (str_eq env "testing" || str_eq env "test")))

  unfoldable pub has_default_secret : Bool
  has_default_secret = str_eq security_secret_key default_secret_key

  -- The tests of the second part, in their order.
  abbrev pub production_tests : List (Bool × SettingFault)
  production_tests =
      (app_debug, debug_on)
      ∷ (has_default_secret || ltb (text_length security_secret_key) 32, weak_secret)
      ∷ (str_eq security_issuer default_issuer_name, default_issuer)
      ∷ (str_eq security_audience default_audience_name, default_audience)
      ∷ (
        security_email_verification_enabled && not (is_nonempty app_public_base_url),
        no_public_base_url,
      )
      ∷ (starts_with database_url "sqlite", sqlite_database)
      ∷ (not (is_filled api_cors_origins), no_cors_origins)
      ∷ (auth_rate_limit_enabled && not (str_eq auth_rate_limit_backend "redis"), memory_rate_limit)
      ∷ (auth_rate_limit_enabled && not (is_set auth_rate_limit_redis_url), no_rate_limit_redis)
      ∷ (
        cache_enabled && (str_eq cache_backend "redis" && not (is_set cache_redis_url)),
        no_cache_redis,
      )
      ∷ (metrics_enabled && not (is_set metrics_auth_token), no_metrics_token)
      ∷ (
        (webhook_enabled && not webhook_dry_run)
            && (str_eq webhook_provider "generic" && not (is_filled webhook_allowed_hosts)),
        no_webhook_hosts,
      )
      ∷ (api_public_registration_enabled && ops_enabled, registration_with_operations)
      ∷ (worker_enabled && not (is_set worker_broker_url), no_worker_broker)
      ∷ (
        worker_enabled
            && (worker_idempotency_enabled
                && (str_eq worker_idempotency_backend "redis"
                    && not (is_set worker_idempotency_redis_url))),
        no_idempotency_redis,
      )
      ∷ []

  unfoldable pub validate_production_settings : Validated
  validate_production_settings =
      if has_default_secret && (not is_local_like && not is_production)
      then rejected (default_secret_deployed ∷ [])
      else if not is_production
      then accepted
      else raise_if_any (collected production_tests)
