-- ===== src/Tests/Texts.antt =====
-- i18n.ts, fieldNames.ts, phone.ts and passwordRules.ts at concrete inputs.
use tidybridge.Base.{
  ℕ, ◌≡◌, refl, ◌↔◌, ◌⊎◌, ◌≤◌, Str, js, none, some, List, [], ◌∷◌, length, true, trim, false,
}
use tidybridge.I18n.{Vars, str, spanish, english, dictionary, entry, replace}
use tidybridge.I18n.Laws.{
  Part, print, render, char, place, SamePlaces, replace-print, dictionaries_same,
}
use tidybridge.I18n.Choice.{Choice}
use tidybridge.FieldNames.{schema_order, order_field_names}
use tidybridge.FieldNames.Order.{in_order_of, order_field_names_lem}
use tidybridge.Phone.{parse_phone, stored_phone}
use tidybridge.Phone.Countries.{country, country_codes}
use tidybridge.Phone.RoundTrip.{parse_phone-stored_phone}
use tidybridge.PasswordRules.{validate_password, meets_rules, utf16}
use tidybridge.PasswordRules.Mirror.{validate_password_iff}

parse_phone-stored_phone_example :
    parse_phone (some (js "+34 600 000 000"))
    ≡ record { dial_code = js "+34"; number = trim (js " 600 000 000 ") }
unfolding country_codes country stored_phone trim js
parse_phone-stored_phone_example =
    parse_phone-stored_phone 0 (country "Spain" "ES" "+34") (js " 600 000 000 ")
      (js "+34 600 000 000") refl refl

-- Aa1! and three characters outside the Basic Multilingual Plane: seven code points, ten units.
abbrev short : List ℕ
short = 65 ∷ 97 ∷ 49 ∷ 33 ∷ 128512 ∷ 128512 ∷ 128512 ∷ []

validate_password_iff_example :
    (validate_password short ≡ none) ↔ ((meets_rules (utf16 short) ≡ true) × (8 ≤ length short))
validate_password_iff_example = validate_password_iff short

short-meets_rules : meets_rules (utf16 short) ≡ true
unfolding meets_rules utf16
short-meets_rules = refl

dictionaries_same_example :
    ((entry (js "hello") (dictionary spanish) ≡ none)
      × (entry (js "hello") (dictionary english) ≡ none))
    ⊎ ((s : Str) × (e : Str) × (entry (js "hello") (dictionary spanish) ≡ some s)
        × (entry (js "hello") (dictionary english) ≡ some e)
        × SamePlaces s e)
dictionaries_same_example = dictionaries_same (js "hello")

abbrev parts : List Part
parts = char 72 ∷ char 32 ∷ place (js "name") ∷ []

abbrev vars : Vars
vars = (js "name", str (js "Ana")) ∷ []

replace-print_example : replace vars none (print parts) ≡ render vars parts
unfolding js
replace-print_example = replace-print vars parts (refl, (refl, (refl, refl, tt)))

abbrev names : List Str
names = js "zip" ∷ js "email" ∷ js "full_name" ∷ js "city" ∷ []

order_field_names_lem_example : order_field_names names ≡ in_order_of schema_order names
order_field_names_lem_example = order_field_names_lem names

abbrev fresh : Choice
fresh = record { current = spanish; saved = none; blocked = false }
