-- ===== src/Settings/Tests.antt =====
-- The settings of a production environment.
use fastapi.Prelude.{String, ◌≡◌, ◌↔◌, none, some, true, false, [], ◌∷◌}
use fastapi.Prelude.Text.{Unicode}
use fastapi.Settings.Validation.{DeploymentSettings, accepted, validate_production_settings}
use fastapi.Settings.Deployable.{is_deployable, validate_production_settings_lem}

abbrev u : Unicode
u = record {
  is_upper = λ c. false;
  is_lower = λ c. true;
  is_digit = λ c. false;
  is_alnum = λ c. true;
  lower = λ s. s;
}

-- A text with no space around it.
abbrev strip : String → String
strip s = s

abbrev settings : DeploymentSettings
settings = record {
  app_env = "production";
  app_debug = false;
  app_public_base_url = "https://example.com";
  security_secret_key = "a-secret-that-is-long-enough-for-it";
  security_issuer = "example";
  security_audience = "example-users";
  security_email_verification_enabled = true;
  database_url = "postgresql://db/app";
  api_cors_origins = "https://example.com" ∷ [];
  api_public_registration_enabled = false;
  auth_rate_limit_enabled = true;
  auth_rate_limit_backend = "redis";
  auth_rate_limit_redis_url = some "redis://r";
  cache_enabled = true;
  cache_backend = "memory";
  cache_redis_url = none;
  metrics_enabled = false;
  metrics_auth_token = none;
  webhook_enabled = false;
  webhook_dry_run = true;
  webhook_provider = "generic";
  webhook_allowed_hosts = [];
  ops_enabled = true;
  worker_enabled = true;
  worker_broker_url = some "amqp://b";
  worker_idempotency_enabled = true;
  worker_idempotency_backend = "memory";
  worker_idempotency_redis_url = none;
}

validate_production_settings_lem_example :
    (validate_production_settings u strip settings ≡ accepted)
    ↔ (is_deployable u strip settings ≡ true)
validate_production_settings_lem_example = validate_production_settings_lem u strip settings
