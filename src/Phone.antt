-- ===== src/Phone.antt =====
-- frontend/src/lib/phone.ts, and what SettingsPage.tsx and CompleteProfilePage.tsx store: a phone
-- is "<dial code> <number>" in one string.
pub mod Countries
pub mod RoundTrip
use tidybridge.Base.{
  ℕ, Str, Bool, true, false, Option, none, some, List, [], ◌∷◌, ◌++◌, if◌then◌else◌, truthy,
  or_else, starts_with, trim, drop, length, find, is_empty,
}
use Countries.{CountryCode, country_codes}

pub record Parsed : Type 0 where
  pub dial_code : Str
  pub number : Str

-- COUNTRY_CODES[0].dialCode
abbrev pub first_dial_code : List CountryCode → Str
first_dial_code [] = []
first_dial_code (c ∷ cs) = c.dial_code

unfoldable pub parse_match : List CountryCode → Str → Option CountryCode → Parsed
parse_match codes phone none = record { dial_code = first_dial_code codes; number = phone }
parse_match codes phone (some c) = record {
  dial_code = c.dial_code;
  number = trim (drop (length c.dial_code) phone);
}

unfoldable pub parse_with : List CountryCode → Option Str → Parsed
parse_with codes phone =
    if truthy phone
    then parse_match codes (or_else phone [])
        (find (λ c. starts_with (or_else phone []) (c.dial_code ++ 32 ∷ [])) codes)
    else record { dial_code = first_dial_code codes; number = [] }

unfoldable pub parse_phone : Option Str → Parsed
parse_phone = parse_with country_codes

-- phoneNumber.trim() ? `${dialCode} ${phoneNumber.trim()}` : undefined
unfoldable pub stored_phone : Str → Str → Option Str
stored_phone dial_code number =
    if is_empty (trim number) then none else some (dial_code ++ (32 ∷ trim number))
