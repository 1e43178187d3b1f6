-- ===== src/Jobs/Tests.antt =====
-- A user that is promoted.
use fastapi.Prelude.{none, some, true, false, [], ◌∷◌, str_eq, refl}
use fastapi.Prelude.Text.{Unicode}
use fastapi.Db.{Tables, User}
use fastapi.Db.Demo.{Demo, demo}
use fastapi.Auth.Tokens.{Crypto}
use fastapi.Auth.Password.{PasswordPolicy}
use fastapi.Jobs.Bootstrap.{BootstrapRequest, bootstrap_platform_admin}
use fastapi.Jobs.BootstrapEffect.{Bootstraps}
use fastapi.Jobs.BootstrapOutcome.{bootstrap_platform_admin_outcome}

abbrev ann : User
ann = record {
  id = some 1;
  account_id = none;
  username = "ann";
  email = "ann@example.com";
  hashed_password = "h";
  phone = none;
  is_active = true;
  email_verified = false;
  role = "user";
  email_verification_sent_at = none;
  failed_login_attempts = 0;
  locked_until = none;
}

abbrev rows : Tables
rows = record {
  accounts = [];
  users = ann ∷ [];
  entitlements = [];
  reservations = [];
  usage_events = [];
  items = [];
  outbox_events = [];
  revoked_tokens = [];
}

abbrev at_rows : Demo
at_rows = record { view = rows; saved = rows; time = 10; script = [] }

abbrev crypto : Crypto Demo
crypto = record {
  check_password = str_eq;
  hash_password = λ s p. p;
  encode = λ c. c.jti;
  decode = λ t token. none;
  uuid = λ s. "u";
}

abbrev u : Unicode
u = record {
  is_upper = λ c. false;
  is_lower = λ c. true;
  is_digit = λ c. false;
  is_alnum = λ c. true;
  lower = λ s. s;
}

abbrev policy : PasswordPolicy
policy = record {
  min_length = 4;
  require_uppercase = false;
  require_lowercase = true;
  require_digit = false;
  require_special = false;
  forbid_username = true;
  forbid_email_localpart = true;
}

abbrev request : BootstrapRequest
request = record {
  username = "ann";
  email = some "ann@example.com";
  password = none;
  role = "platform_admin";
  phone = none;
  verify_email = true;
  activate_user = true;
}

bootstrap_platform_admin_outcome_example :
    Bootstraps demo crypto u policy request at_rows.saved
      (bootstrap_platform_admin demo crypto u policy request at_rows)
bootstrap_platform_admin_outcome_example =
    bootstrap_platform_admin_outcome demo crypto u policy request at_rows refl
