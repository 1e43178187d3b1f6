-- ===== src/Prelude/Text.antt =====
-- Python's operations on texts that the code uses. Which characters are letters, digits or capitals,
-- and what `lower` makes of a text, are Unicode's tables: they are parameters.
use Prim.Native.Char.{Char, code}
use Prim.Native.String.{String}
use Prim.Native.Nat.{ℕ, zero, suc}
-- `s + t`
pub use Prim.Native.String.{◌++◌ as append}
use mathlib.Core.Bool.{Bool, true, false, ◌||◌}
use text.Mathlib.Text.{find?}
use fastapi.Prelude.Tests.{◌==◌, if◌then◌else◌, is_some}

pub record Unicode : Type 0 where
  pub is_upper : Char → Bool
  pub is_lower : Char → Bool
  pub is_digit : Char → Bool
  pub is_alnum : Char → Bool
  pub lower : String → String

-- `len(s)`
unfoldable pub text_length : String → ℕ
text_length String.[] = 0
text_length (String.◌∷◌ c s) = suc (text_length s)

-- `s[:n]`
unfoldable pub text_take : ℕ → String → String
text_take zero s = String.[]
text_take (suc n) String.[] = String.[]
text_take (suc n) (String.◌∷◌ c s) = String.◌∷◌ c (text_take n s)

-- `any(test(char) for char in s)`
unfoldable pub any_char : (Char → Bool) → String → Bool
any_char test String.[] = false
any_char test (String.◌∷◌ c s) = test c || any_char test s

-- `bool(s)`
abbrev pub is_nonempty : String → Bool
is_nonempty String.[] = false
is_nonempty (String.◌∷◌ _ _) = true

-- `part in s`
abbrev pub contains : String → String → Bool
contains s part = is_some (find? s part)

-- `s.split(char, 1)[0]`, for the character with this code
unfoldable pub before_char : ℕ → String → String
before_char n String.[] = String.[]
before_char n (String.◌∷◌ c s) =
    let rest = before_char n s in if code c == n then String.[] else String.◌∷◌ c rest

-- `s.rstrip(char)`, for the character with this code
unfoldable pub strip_end : ℕ → String → String
strip_end n String.[] = String.[]
strip_end n (String.◌∷◌ c s) =
    let rest = strip_end n s in
    if is_nonempty rest
    then String.◌∷◌ c rest
    else if code c == n
    then String.[]
    else String.◌∷◌ c rest
