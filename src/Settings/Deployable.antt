-- ===== src/Settings/Deployable.antt =====
-- The settings that are accepted, told by what each environment requires.
use mathlib.Core.Path.{subst}
use fastapi.Prelude.{
  ℕ, String, ◌≡◌, ◌↔◌, refl, Bool, true, false, not, ◌&&◌, ◌||◌, List, [], ◌∷◌, str_eq, leb, ltb,
  arith, if◌then◌else◌,
}
use fastapi.Prelude.Text.{Unicode, text_length, is_nonempty}
use text.Mathlib.Text.{starts_with}
use fastapi.Settings.Validation.{
  DeploymentSettings, SettingFault, Validated, accepted, rejected, default_secret_deployed,
  collected, raise_if_any, is_set, is_filled, default_issuer_name, default_audience_name,
  is_production, is_local_like, has_default_secret, production_tests, validate_production_settings,
}

-- A requirement that holds only under a condition.
abbrev pub when : Bool → Bool → Bool
when asked met = not asked || met

-- No test holds.
abbrev none_holds : List (Bool × SettingFault) → Bool
none_holds [] = true
none_holds ((test, _) ∷ rest) = not test && none_holds rest

collected-nil :
    (tests : List (Bool × SettingFault))
    → (raise_if_any (collected tests) ≡ accepted) ↔ (none_holds tests ≡ true)
unfolding collected
collected-nil [] = ground arith
collected-nil ((true, x) ∷ rest) = ground arith
collected-nil ((false, x) ∷ rest) = ground (arith, collected-nil rest)

unmet : (asked met : Bool) → not (asked && not met) ≡ when asked met
unmet true true = refl
unmet true false = refl
unmet false met = refl

unmet_under : (a b met : Bool) → not (a && (b && not met)) ≡ when (a && b) met
unmet_under true b met = unmet b met
unmet_under false b met = refl

strong_secret : (d : Bool) (n : ℕ) → not (d || ltb n 32) ≡ (not d && leb 32 n)
strong_secret true n = refl
strong_secret false n = ground arith

double_not : (b : Bool) → not (not b) ≡ b
double_not true = refl
double_not false = refl

unmet_under_three : (a b c met : Bool) → not (a && (b && (c && not met))) ≡ when (a && (b && c)) met
unmet_under_three true b c met = unmet_under b c met
unmet_under_three false b c met = refl

by_environment :
    (default local production ready : Bool) (v : Validated)
    → (v ≡ accepted) ↔ (ready ≡ true)
    → ((if default && (not local && not production)
          then rejected (default_secret_deployed ∷ [])
          else if not production
          then accepted
          else v)
        ≡ accepted)
      ↔ ((if production then ready else local || not default) ≡ true)
by_environment true true true ready v h = h
by_environment true false true ready v h = h
by_environment false l true ready v h = h
by_environment true true false ready v h = ground arith
by_environment true false false ready v h = ground arith
by_environment false true false ready v h = ground arith
by_environment false false false ready v h = ground arith

module _ (u : Unicode) (strip : String → String) (settings : DeploymentSettings) where
  open settings use {
    app_debug, app_public_base_url, security_secret_key, security_issuer, security_audience,
    security_email_verification_enabled, database_url, api_cors_origins,
    api_public_registration_enabled, auth_rate_limit_enabled, auth_rate_limit_backend,
    auth_rate_limit_redis_url, cache_enabled, cache_backend, cache_redis_url, metrics_enabled,
    metrics_auth_token, webhook_enabled, webhook_dry_run, webhook_provider, webhook_allowed_hosts,
    ops_enabled, worker_enabled, worker_broker_url, worker_idempotency_enabled,
    worker_idempotency_backend, worker_idempotency_redis_url,
  }

  abbrev pub is_production_ready : Bool
  is_production_ready =
      not app_debug
      && ((not (has_default_secret u strip settings) && leb 32 (text_length security_secret_key))
          && (not (str_eq security_issuer default_issuer_name)
              && (not (str_eq security_audience default_audience_name)
                  && (when security_email_verification_enabled (is_nonempty app_public_base_url)
                      && (not (starts_with database_url "sqlite")
                          && (is_filled api_cors_origins
                              && (when auth_rate_limit_enabled
                                    (str_eq auth_rate_limit_backend "redis")
                                  && (when auth_rate_limit_enabled
                                        (is_set auth_rate_limit_redis_url)
                                      && (when (cache_enabled && str_eq cache_backend "redis")
                                            (is_set cache_redis_url)
                                          && (when metrics_enabled (is_set metrics_auth_token)
                                              && (when
                                                    ((webhook_enabled && not webhook_dry_run)
                                                      && str_eq webhook_provider "generic")
                                                    (is_filled webhook_allowed_hosts)
                                                  && (not (
                                                        api_public_registration_enabled
                                                        && ops_enabled)
                                                      && (when worker_enabled
                                                            (is_set worker_broker_url)
                                                          && (when
                                                            (worker_enabled
                                                            && (worker_idempotency_enabled
                                                            && str_eq worker_idempotency_backend
                                                            "redis"))
                                                            (is_set worker_idempotency_redis_url)
                                                            && true))))))))))))))

  abbrev pub is_deployable : Bool
  is_deployable =
      if is_production u strip settings
      then is_production_ready
      else is_local_like u strip settings || not (has_default_secret u strip settings)

  none_holds-is_production_ready :
      none_holds (production_tests u strip settings) ≡ is_production_ready
  none_holds-is_production_ready =
      simp (unmet_under_three, unmet_under, unmet, strong_secret, double_not) refl

  -- `validate_production_settings` accepts exactly these settings: in production those that meet each of
  -- the fifteen requirements; elsewhere all but those that keep the default secret key in an
  -- environment that is not a local one.
  pub validate_production_settings_lem :
      (validate_production_settings u strip settings ≡ accepted) ↔ (is_deployable ≡ true)
  unfolding validate_production_settings
  validate_production_settings_lem =
      by_environment (has_default_secret u strip settings) (is_local_like u strip settings)
        (is_production u strip settings) is_production_ready
        (raise_if_any (collected (production_tests u strip settings)))
        (subst
          (λ b.
            (raise_if_any (collected (production_tests u strip settings)) ≡ accepted) ↔ (b ≡ true))
          none_holds-is_production_ready (collected-nil (production_tests u strip settings)))
