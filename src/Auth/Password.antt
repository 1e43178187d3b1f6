-- ===== src/Auth/Password.antt =====
-- app/core/security.py, `validate_password_policy`. The fault stands for the text of the message.
use fastapi.Prelude.{
  ℕ, String, ◌≡◌, ◌↔◌, refl, ◌&&◌, ◌||◌, not, Option, none, some, Bool, true, false, leb, ltb,
  arith, if◌then◌else◌,
}
use fastapi.Prelude.Text.{Unicode, text_length, any_char, contains, before_char, is_nonempty}

pub record PasswordPolicy : Type 0 where
  pub min_length : ℕ
  pub require_uppercase : Bool
  pub require_lowercase : Bool
  pub require_digit : Bool
  pub require_special : Bool
  pub forbid_username : Bool
  pub forbid_email_localpart : Bool

pub data PasswordFault : Type 0 where
  too_short no_uppercase no_lowercase no_digit no_special : PasswordFault
  has_username has_email_localpart : PasswordFault

-- A test that comes first in a chain.
first_test :
    (x : PasswordFault) (fails passes ok : Bool) (rest : Option PasswordFault)
    → not fails ≡ passes
    → (rest ≡ none) ↔ (ok ≡ true)
    → ((if fails then some x else rest) ≡ none) ↔ ((passes && ok) ≡ true)
first_test x true passes ok rest e h = ground (arith, e)
first_test x false passes ok rest e h = ground (arith, e, h)

not-required : (asked met : Bool) → not (asked && not met) ≡ (not asked || met)
not-required true true = refl
not-required true false = refl
not-required false met = refl

last_test :
    (x : PasswordFault) (fails : Bool)
    → ((if fails then some x else none) ≡ none) ↔ (not fails ≡ true)
last_test x true = ground arith
last_test x false = ground arith

module _ (u : Unicode) (policy : PasswordPolicy) where
  open u use {is_upper, is_lower, is_digit, is_alnum, lower}
  open policy use {
    min_length, require_uppercase, require_lowercase, require_digit, require_special,
    forbid_username, forbid_email_localpart,
  }

  abbrev pub local_part : String → String
  local_part email = lower (before_char 64 email)

  unfoldable pub validate_password_policy : String → String → String → Option PasswordFault
  validate_password_policy password username email =
      if ltb (text_length password) min_length
      then some too_short
      else if require_uppercase && not (any_char is_upper password)
      then some no_uppercase
      else if require_lowercase && not (any_char is_lower password)
      then some no_lowercase
      else if require_digit && not (any_char is_digit password)
      then some no_digit
      else if require_special && not (any_char (λ c. not (is_alnum c)) password)
      then some no_special
      else if forbid_username
          && (is_nonempty username && contains (lower password) (lower username))
      then some has_username
      else if forbid_email_localpart
          && (is_nonempty email
              && (is_nonempty (local_part email) && contains (lower password) (local_part email)))
      then some has_email_localpart
      else none

  -- What the policy asks of a password, all at once.
  abbrev pub is_acceptable : String → String → String → Bool
  is_acceptable password username email =
      leb min_length (text_length password)
      && ((not require_uppercase || any_char is_upper password)
          && ((not require_lowercase || any_char is_lower password)
              && ((not require_digit || any_char is_digit password)
                  && ((not require_special || any_char (λ c. not (is_alnum c)) password)
                      && (not (
                            forbid_username
                            && (is_nonempty username && contains (lower password) (lower username)))
                          && not (
                              forbid_email_localpart
                              && (is_nonempty email
                                  && (is_nonempty (local_part email)
                                      && contains (lower password) (local_part email)))))))))

  -- `validate_password_policy` finds no fault exactly in the passwords that meet every requirement
  -- that is switched on.
  pub validate_password_policy_lem :
      (password username email : String)
      → (validate_password_policy password username email ≡ none)
        ↔ (is_acceptable password username email ≡ true)
  unfolding validate_password_policy
  validate_password_policy_lem password username email =
      first_test too_short _ _ _ _ (ground arith) (
        first_test no_uppercase _ _ _ _
          (not-required require_uppercase (any_char is_upper password))
          (first_test no_lowercase _ _ _ _
            (not-required require_lowercase (any_char is_lower password))
            (first_test no_digit _ _ _ _ (not-required require_digit (any_char is_digit password)) (
              first_test no_special _ _ _ _
                (not-required require_special (any_char (λ c. not (is_alnum c)) password))
                (first_test has_username _ _ _ _ refl (last_test has_email_localpart _))))))
