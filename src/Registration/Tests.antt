-- ===== src/Registration/Tests.antt =====
-- A concrete registration.
use fastapi.Prelude.{refl, none, true, false, [], str_eq}
use fastapi.Prelude.Text.{Unicode}
use fastapi.Db.{Tables}
use fastapi.Db.Demo.{Demo, demo}
use fastapi.Auth.Tokens.{Crypto}
use fastapi.Auth.Password.{PasswordPolicy}
use fastapi.Auth.Links.{LinkSettings}
use fastapi.Registration.Create.{UserCreate, create_user}
use fastapi.Registration.Outcome.{Registers, RegistersNew, create_user_outcome}

abbrev ann : UserCreate
ann = record { username = "ann"; email = "ann@example.com"; password = "hello"; phone = none }

abbrev rows : Tables
rows = record {
  accounts = [];
  users = [];
  entitlements = [];
  reservations = [];
  usage_events = [];
  items = [];
  outbox_events = [];
  revoked_tokens = [];
}

abbrev at_rows : Demo
at_rows = record { view = rows; saved = rows; time = 10; script = [] }

abbrev crypto : Crypto Demo
crypto = record {
  check_password = str_eq;
  hash_password = λ s p. p;
  encode = λ c. c.jti;
  decode = λ t token. none;
  uuid = λ s. "u";
}

abbrev u : Unicode
u = record {
  is_upper = λ c. false;
  is_lower = λ c. true;
  is_digit = λ c. false;
  is_alnum = λ c. true;
  lower = λ s. s;
}

abbrev policy : PasswordPolicy
policy = record {
  min_length = 4;
  require_uppercase = false;
  require_lowercase = true;
  require_digit = false;
  require_special = false;
  forbid_username = true;
  forbid_email_localpart = true;
}

abbrev links : LinkSettings
links = record {
  email_verification_enabled = true;
  email_verification_token_expire_minutes = 60;
  password_reset_token_expire_minutes = 30;
  public_base_url = "http://localhost/";
  v1_prefix = "/api/v1";
  quote = λ s. s;
}

create_user_outcome_example :
    Registers demo crypto links ann at_rows (create_user demo crypto links u policy ann at_rows)
    × RegistersNew demo crypto links ann u policy at_rows
        (create_user demo crypto links u policy ann at_rows)
create_user_outcome_example = create_user_outcome demo crypto links ann u policy at_rows refl
