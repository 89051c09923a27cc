-- ===== src/PasswordRules.antt =====
-- frontend/src/lib/passwordRules.ts beside `validate_password` of src/tidybridge/auth.py, which it
-- mirrors.
pub mod Mirror
use tidybridge.Base.{
  ℕ, ◌+◌, ◌-◌, ◌/◌, ◌%◌, ◌≤◌, Str, js, Bool, true, false, not, ◌&&◌, ◌||◌, Option, none, some, List,
  [], ◌∷◌, ◌++◌, if◌then◌else◌, leb, ltb, length, any, all, map, is_upper, is_lower, is_digit,
}

abbrev pub is_special : ℕ → Bool
is_special c = not (is_upper c || is_lower c || is_digit c)

pub record Rule : Type 0 where
  pub test : Str → Bool
  pub label : Str

unfoldable pub password_rules : List Rule
password_rules =
    record { test = λ p. leb 8 (length p); label = js "ruleLength" }
    ∷ record { test = any is_upper; label = js "ruleUpper" }
    ∷ record { test = any is_lower; label = js "ruleLower" }
    ∷ record { test = any is_digit; label = js "ruleDigit" }
    ∷ record { test = any is_special; label = js "ruleSpecial" }
    ∷ []

-- Every rule is met.
unfoldable pub meets_rules : Str → Bool
unfolding password_rules
meets_rules p = all (λ (r : Rule). r.test p) password_rules

pub data Reason : Type 0 where
  too_short no_upper no_lower no_digit no_special : Reason

-- The backend, over a Python string: a list of code points. The first rule that fails is raised.
unfoldable pub validate_password : List ℕ → Option Reason
validate_password p =
    if ltb (length p) 8
    then some too_short
    else if not (any is_upper p)
    then some no_upper
    else if not (any is_lower p)
    then some no_lower
    else if not (any is_digit p)
    then some no_digit
    else if not (any is_special p)
    then some no_special
    else none

-- The string that the browser holds for these code points.
unfoldable pub utf16 : List ℕ → Str
utf16 [] = []
utf16 (c ∷ cs) =
    if ltb c 0x10000
    then c ∷ utf16 cs
    else (0xd800 + (c - 0x10000) / 0x400) ∷ (0xdc00 + (c - 0x10000) % 0x400) ∷ utf16 cs
