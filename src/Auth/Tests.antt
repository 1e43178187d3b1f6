-- ===== src/Auth/Tests.antt =====
-- A concrete user and token, and one instance of each theorem on signing in and on tokens.
use fastapi.Prelude.{
  String, ◌≡◌, ◌↔◌, leb, refl, none, some, true, false, [], ◌∷◌, str_eq, find, arith, if◌then◌else◌,
  ltb,
}
use fastapi.Db.{Tables, User}
use fastapi.Db.Demo.{Demo, demo}
use fastapi.Auth.Users.{user_by_username, user_by_id, get_user_by_id}
use fastapi.Auth.Tokens.{
  Claims, Crypto, SecuritySettings, create_token_pair, create_token, is_token_revoked, revoked_row,
  insert_revoked, revoke_token,
}
use Prim.Native.Char.{code}
use fastapi.Prelude.Text.{Unicode}
use fastapi.Auth.Password.{
  PasswordPolicy, validate_password_policy, is_acceptable, validate_password_policy_lem,
}
use fastapi.Auth.Confirm.{confirm_password_reset, confirm_email_verification}
use fastapi.Auth.ConfirmEffect.{token_user}
use fastapi.Auth.ConfirmOutcome.{
  Resets, Verifies, confirm_password_reset_outcome, confirm_email_verification_outcome,
}
use fastapi.Auth.Login.{authenticate_user}
use fastapi.Auth.LoginEffect.{Authenticates, checking, authenticate_user_outcome}
use fastapi.Auth.Rotation.{
  refresh_tokens, refresh_claims, rotate_for, rotate, revoke_claims, logout_refresh_token,
}
use fastapi.Auth.RotationEffect.{
  IsSigned, LogsOut, Rotates, logout_refresh_token_outcome, refresh_tokens_outcome,
}
use fastapi.Auth.Reuse.{is_success, refresh_tokens_once}

abbrev ann : User
ann = record {
  id = some 1;
  account_id = some 7;
  username = "ann";
  email = "ann@example.com";
  hashed_password = "secret";
  phone = none;
  is_active = true;
  email_verified = true;
  role = "user";
  email_verification_sent_at = none;
  failed_login_attempts = 2;
  locked_until = none;
}

abbrev rows : Tables
rows = record {
  accounts = [];
  users = ann ∷ [];
  entitlements = [];
  reservations = [];
  usage_events = [];
  items = [];
  outbox_events = [];
  revoked_tokens = [];
}

abbrev at_rows : Demo
at_rows = record { view = rows; saved = rows; time = 10; script = [] }

abbrev her_claims : Claims
her_claims = record {
  subject = some 1;
  username = "ann";
  token_type = "refresh";
  jti = "j1";
  exp = some 900;
}

-- A hash is the password, and every token decodes to the same claims until they expire.
abbrev crypto : Crypto Demo
crypto = record {
  check_password = str_eq;
  hash_password = λ s p. p;
  encode = λ c. c.jti;
  decode = λ t token. if ltb t 900 then some her_claims else none;
  uuid = λ s. "u";
}

abbrev settings : SecuritySettings
settings = record {
  access_token_expire_minutes = 15;
  refresh_token_expire_minutes = 60;
  require_verified_email_for_login = true;
  account_lockout_enabled = true;
  account_lockout_max_attempts = 3;
  account_lockout = 600;
}

crypto-IsSigned : IsSigned crypto
crypto-IsSigned t t' token c c' h h' = ground (arith, h, h')

authenticate_user_outcome_example :
    Authenticates demo crypto settings
      (user_by_username "ann" at_rows.saved)
      "secret"
      10
      (checking demo crypto settings at_rows)
      (authenticate_user demo crypto settings "ann" "secret" at_rows)
authenticate_user_outcome_example =
    authenticate_user_outcome demo crypto settings "ann" "secret" at_rows refl

logout_refresh_token_outcome_example :
    LogsOut demo crypto (some her_claims) at_rows (logout_refresh_token demo crypto "j1" at_rows)
logout_refresh_token_outcome_example =
    logout_refresh_token_outcome demo crypto crypto-IsSigned "j1" at_rows refl

refresh_tokens_outcome_example :
    Rotates demo crypto settings
      (some her_claims)
      at_rows
      (refresh_tokens demo crypto settings "j1" at_rows)
refresh_tokens_outcome_example =
    refresh_tokens_outcome demo crypto settings crypto-IsSigned "j1" at_rows refl

first_refresh : is_success (refresh_tokens demo crypto settings "j1" at_rows).0 ≡ true
unfolding refresh_tokens refresh_claims rotate_for rotate revoke_claims get_user_by_id user_by_id
    is_token_revoked revoked_row revoke_token insert_revoked create_token_pair create_token find
first_refresh = refl

-- The session of the next request.
abbrev next_request : Demo
next_request =
    let t = (refresh_tokens demo crypto settings "j1" at_rows).1.saved in
    record { view = t; saved = t; time = 100; script = [] }

refresh_tokens_once_example :
    is_success (refresh_tokens demo crypto settings "j1" next_request).0 ≡ false
refresh_tokens_once_example =
    refresh_tokens_once demo crypto settings crypto-IsSigned "j1" at_rows next_request refl refl
      refl first_refresh

-- Only ASCII letters and digits, and no capitals.
abbrev u : Unicode
u = record {
  is_upper = λ c. false;
  is_lower = λ c. leb 97 (code c);
  is_digit = λ c. ltb (code c) 58;
  is_alnum = λ c. true;
  lower = λ s. s;
}

abbrev policy : PasswordPolicy
policy = record {
  min_length = 4;
  require_uppercase = false;
  require_lowercase = true;
  require_digit = false;
  require_special = false;
  forbid_username = true;
  forbid_email_localpart = true;
}

validate_password_policy_lem_example :
    (validate_password_policy u policy "hello" "ann" "ann@example.com" ≡ none)
    ↔ (is_acceptable u policy "hello" "ann" "ann@example.com" ≡ true)
validate_password_policy_lem_example =
    validate_password_policy_lem u policy "hello" "ann" "ann@example.com"

-- Every token decodes to the claims that confirm an email or a reset.
abbrev crypto_for : String → Crypto Demo
crypto_for kind = record crypto {
  decode = λ t token. some (record her_claims { token_type = kind });
}

confirm_password_reset_outcome_example :
    Resets demo
      (crypto_for "password_reset")
      u
      policy
      "hello"
      (token_user "password_reset" at_rows.saved
        (some (record her_claims { token_type = "password_reset" })))
      at_rows
      (confirm_password_reset demo (crypto_for "password_reset") u policy "t" "hello" at_rows)
confirm_password_reset_outcome_example =
    confirm_password_reset_outcome demo (crypto_for "password_reset") u policy "t" "hello" at_rows
      refl

confirm_email_verification_outcome_example :
    Verifies demo
      (crypto_for "email_verification")
      (token_user "email_verification" at_rows.saved
        (some (record her_claims { token_type = "email_verification" })))
      at_rows
      (confirm_email_verification demo (crypto_for "email_verification") "t" at_rows)
confirm_email_verification_outcome_example =
    confirm_email_verification_outcome demo (crypto_for "email_verification") "t" at_rows refl
