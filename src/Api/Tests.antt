-- ===== src/Api/Tests.antt =====
-- A user with an access token, and the guard of the operations endpoints.
use fastapi.Prelude.{none, some, true, [], ◌∷◌, str_eq, refl}
use fastapi.Db.{Tables, User}
use fastapi.Db.Demo.{Demo, demo}
use fastapi.Auth.Tokens.{Claims, Crypto, SecuritySettings}
use fastapi.Prelude.Dict.{put, empty}
use fastapi.RateLimit.Memory.{Attempts}
use fastapi.RateLimit.Requests.{RateLimitSettings}
use fastapi.Api.Access.{get_operations_user}
use fastapi.Api.Bearer.{Answers, operator_answer, bearer, get_operations_user_outcome}

abbrev ann : User
ann = record {
  id = some 1;
  account_id = some 7;
  username = "ann";
  email = "ann@example.com";
  hashed_password = "secret";
  phone = none;
  is_active = true;
  email_verified = true;
  role = "ops_admin";
  email_verification_sent_at = none;
  failed_login_attempts = 2;
  locked_until = none;
}

abbrev rows : Tables
rows = record {
  accounts = [];
  users = ann ∷ [];
  entitlements = [];
  reservations = [];
  usage_events = [];
  items = [];
  outbox_events = [];
  revoked_tokens = [];
}

abbrev at_rows : Demo
at_rows = record { view = rows; saved = rows; time = 10; script = [] }

abbrev her_claims : Claims
her_claims = record {
  subject = some 1;
  username = "ann";
  token_type = "access";
  jti = "j1";
  exp = some 900;
}

abbrev crypto : Crypto Demo
crypto = record {
  check_password = str_eq;
  hash_password = λ s p. p;
  encode = λ c. c.jti;
  decode = λ t token. some her_claims;
  uuid = λ s. "u";
}

get_operations_user_outcome_example :
    Answers demo crypto
      (operator_answer true (bearer at_rows.saved (some her_claims)))
      at_rows
      (get_operations_user demo crypto true "t" at_rows)
get_operations_user_outcome_example = get_operations_user_outcome demo crypto true "t" at_rows refl

abbrev settings : SecuritySettings
settings = record {
  access_token_expire_minutes = 15;
  refresh_token_expire_minutes = 60;
  require_verified_email_for_login = true;
  account_lockout_enabled = true;
  account_lockout_max_attempts = 3;
  account_lockout = 600;
}

abbrev limits : RateLimitSettings
limits = record {
  enabled = true;
  login_max_attempts = 5;
  login_window_seconds = 300;
  token_max_attempts = 20;
  token_window_seconds = 60;
}

-- One attempt has been made before.
abbrev attempts : Attempts
attempts = put "k" (9 ∷ []) empty
