-- ===== src/PasswordRules/Mirror.antt =====
-- The rules shown in the browser against those of the backend.
use tidybridge.Base.{
  ℕ, ◌≤◌, ◌/◌, ◌-◌, ◌%◌, ◌+◌, ◌≡◌, refl, ◌↔◌, Bool, true, false, none, List, [], ◌∷◌, arith, length,
  any, is_upper, is_lower, is_digit,
}
use tidybridge.PasswordRules.{utf16, is_special, meets_rules, validate_password}

-- A test that no unit above 0x10000 passes sees the same in the units as in the code points.
any-utf16_ascii :
    (test : ℕ → Bool) (cs : List ℕ)
    → ((c : ℕ) → 0x80 ≤ c → test c ≡ false)
    → any test (utf16 cs) ≡ any test cs
unfolding utf16
any-utf16_ascii test [] low = refl
any-utf16_ascii test (c ∷ cs) low = ground (
  arith,
  any-utf16_ascii test cs low,
  low c,
  low (0xd800 + (c - 0x10000) / 0x400),
  low (0xdc00 + (c - 0x10000) % 0x400),
)

any-utf16_special : (cs : List ℕ) → any is_special (utf16 cs) ≡ any is_special cs
unfolding utf16
any-utf16_special [] = refl
any-utf16_special (c ∷ cs) = ground (arith, any-utf16_special cs)

length-utf16 : (cs : List ℕ) → length cs ≤ length (utf16 cs)
unfolding utf16
length-utf16 [] = omega arith
length-utf16 (c ∷ cs) = ground (arith, length-utf16 cs)

above_upper : (c : ℕ) → 0x80 ≤ c → is_upper c ≡ false
above_upper c h = ground arith

above_lower : (c : ℕ) → 0x80 ≤ c → is_lower c ≡ false
above_lower c h = ground arith

above_digit : (c : ℕ) → 0x80 ≤ c → is_digit c ≡ false
above_digit c h = ground arith

-- The backend takes a password exactly if the browser shows every rule as met and the password
-- has eight code points; the browser counts UTF-16 units.
pub validate_password_iff :
    (cs : List ℕ)
    → (validate_password cs ≡ none) ↔ ((meets_rules (utf16 cs) ≡ true) × (8 ≤ length cs))
unfolding validate_password meets_rules
validate_password_iff cs = ground (
  arith,
  any-utf16_ascii is_upper cs above_upper,
  any-utf16_ascii is_lower cs above_lower,
  any-utf16_ascii is_digit cs above_digit,
  any-utf16_special cs,
  length-utf16 cs,
)
