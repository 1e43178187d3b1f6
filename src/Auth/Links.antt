-- ===== src/Auth/Links.antt =====
-- app/core/security.py: the tokens and links of the messages that verify an email and reset a
-- password. `quote` is that of `urllib.parse`.
use fastapi.Prelude.{ℕ, String, Bool}
use fastapi.Prelude.Text.{append, strip_end}
use fastapi.Exec.{Exec}
use fastapi.Db.{Session, User}
use fastapi.Auth.Tokens.{Crypto, create_token}

pub record LinkSettings : Type 0 where
  pub email_verification_enabled : Bool
  pub email_verification_token_expire_minutes : ℕ
  pub password_reset_token_expire_minutes : ℕ
  pub public_base_url : String
  pub v1_prefix : String
  pub quote : String → String

module _ (settings : LinkSettings) where
  open settings use {public_base_url, v1_prefix, quote}

  abbrev pub link_to : String → String → String
  link_to path token =
      append (strip_end 47 public_base_url) (append v1_prefix (append path (quote token)))

  unfoldable pub build_email_verification_url : String → String
  build_email_verification_url = link_to "/auth/verify-email/confirm?token="

  unfoldable pub build_password_reset_url : String → String
  build_password_reset_url = link_to "/auth/password-reset/confirm?token="

  module _ (db : Session) (crypto : Crypto db.State) where
    open db use {State}

    unfoldable pub create_email_verification_token : User → Exec State String
    create_email_verification_token user =
        create_token db crypto "email_verification" user.id user.username
          settings.email_verification_token_expire_minutes

    unfoldable pub create_password_reset_token : User → Exec State String
    create_password_reset_token user =
        create_token db crypto "password_reset" user.id user.username
          settings.password_reset_token_expire_minutes
