-- ===== src/Phone/RoundTrip.antt =====
-- lib/phone.ts reads back what the profile forms store.
use tidybridge.Base.{
  ℕ, zero, suc, Str, Bool, true, false, not, truthy, ◌≡◌, refl, sym, ap, ◌∙◌, inl, inr, some, List,
  [], ◌∷◌, ◌++◌, arith, starts_with, starts_with-append, trim, trim_start, drop, length, find,
  is_space, get_elem?, All, Bool-cases, ◌==◌, all, All-of_all, append_assoc,
}
use mathlib.Core.List.{reverse, reverse-append, reverse-reverse}
use tidybridge.Phone.{parse_match, parse_with, parse_phone, stored_phone}
use tidybridge.Phone.Countries.{CountryCode, country_codes}

-- The text is empty, or begins with no white space.
abbrev Begins : Str → Type 0
Begins [] = Unit
Begins (c ∷ s) = is_space c ≡ false

trim_start-Begins : (s : Str) → Begins (trim_start s)
unfolding trim_start
trim_start-Begins [] = tt
trim_start-Begins (c ∷ s) = elim (Bool-cases (is_space c)) [
  | inl e ↦ rw e (trim_start-Begins s)
  | inr e ↦ rw e e
]

trim_start_of_Begins : (s : Str) → Begins s → trim_start s ≡ s
unfolding trim_start
trim_start_of_Begins [] h = refl
trim_start_of_Begins (c ∷ s) h = rw h

-- What trim_start cuts off.
cut : (s : Str) → (p : Str) × (s ≡ p ++ trim_start s)
unfolding trim_start
cut [] = ([], refl)
cut (c ∷ s) = elim (Bool-cases (is_space c)) [
  | inl e ↦ (c ∷ (cut s).0, rw e (ap (λ r. c ∷ r) (cut s).1))
  | inr e ↦ ([], rw e)
]

Begins-prefix : (s p u : Str) → s ++ p ≡ u → Begins u → Begins s
Begins-prefix [] p u e h = tt
Begins-prefix (c ∷ s) p [] e h = cc
Begins-prefix (c ∷ s) p (d ∷ u) e h = let same : c ≡ d = cc in rw same h

trim-Begins : (s : Str) → Begins (trim s)
unfolding trim
trim-Begins s =
    let u = trim_start s in
    let (p, e) = cut (reverse u) in
    let whole : reverse (trim_start (reverse u)) ++ reverse p ≡ u =
      sym (reverse-append p (trim_start (reverse u))) ∙ (ap reverse (sym e) ∙ reverse-reverse u) in
    Begins-prefix (reverse (trim_start (reverse u))) (reverse p) u whole (trim_start-Begins s)

reverse-trim : (s : Str) → reverse (trim s) ≡ trim_start (reverse (trim_start s))
unfolding trim
reverse-trim s = reverse-reverse _

-- Trimmed text behind a space trims to itself.
trim_space : (s : Str) → trim (32 ∷ trim s) ≡ trim s
unfolding trim trim_start
trim_space s =
    ap (λ u. reverse (trim_start (reverse u))) (trim_start_of_Begins (trim s) (trim-Begins s))
    ∙ ap reverse (
        ap trim_start (reverse-trim s)
        ∙ trim_start_of_Begins _ (trim_start-Begins (reverse (trim_start s))))

abbrev is_solid : ℕ → Bool
is_solid c = not (c == 32)

-- Two such codes, each with a space behind it, do not begin the same text.
dial_code_unique :
    (a b n : Str)
    → all is_solid a ≡ true
    → all is_solid b ≡ true
    → starts_with (b ++ 32 ∷ n) (a ++ 32 ∷ []) ≡ true
    → a ≡ b
unfolding starts_with
dial_code_unique [] [] n h k e = refl
dial_code_unique [] (d ∷ b) n h k e = ground arith
dial_code_unique (c ∷ a) [] n h k e = ground arith
dial_code_unique (c ∷ a) (d ∷ b) n h k e = ground (arith, dial_code_unique a b n)

drop-append : (s t : Str) → drop (length s) (s ++ t) ≡ t
drop-append [] t = refl
drop-append (c ∷ s) t = drop-append s t

-- Every listed dial code is free of spaces.
abbrev AllSolid : List CountryCode → Type 0
AllSolid codes = All (λ (c : CountryCode). all is_solid c.dial_code ≡ true) codes

solid_at :
    (codes : List CountryCode) (i : ℕ) {c : CountryCode}
    → AllSolid codes
    → get_elem? codes i ≡ some c
    → all is_solid c.dial_code ≡ true
solid_at [] i h e = cc
solid_at (d ∷ codes) zero h e = ground (arith, h.0)
solid_at (d ∷ codes) (suc i) h e = solid_at codes i h.1 e

-- The search finds a country with the dial code that was stored.
find_stored :
    (codes : List CountryCode) (i : ℕ) (c : CountryCode) (n : Str)
    → AllSolid codes
    → all is_solid c.dial_code ≡ true
    → get_elem? codes i ≡ some c
    → (d : CountryCode) × (find
          (λ (k : CountryCode). starts_with (c.dial_code ++ 32 ∷ n) (k.dial_code ++ 32 ∷ []))
          codes
        ≡ some d)
      × (d.dial_code ≡ c.dial_code)
find_stored [] i c n h s e = cc
find_stored (k ∷ codes) zero c n h s e =
    let same : k ≡ c = cc in
    let begins : starts_with (c.dial_code ++ 32 ∷ n) (c.dial_code ++ 32 ∷ []) ≡ true =
      rw (append_assoc c.dial_code (32 ∷ []) n) at
        (starts_with-append (c.dial_code ++ 32 ∷ []) n) in
    (k, rw (same, begins), ap (λ (d : CountryCode). d.dial_code) same)
find_stored (k ∷ codes) (suc i) c n h s e =
    let (d, found, same) = find_stored codes i c n h.1 s e in
    elim (Bool-cases (starts_with (c.dial_code ++ 32 ∷ n) (k.dial_code ++ 32 ∷ []))) [
      | inl hit ↦ (k, rw hit, dial_code_unique k.dial_code c.dial_code n h.0 s hit)
      | inr miss ↦ (d, rw (miss, found), same)
    ]

-- The number behind a found dial code.
parse_found :
    (codes : List CountryCode) (c d : CountryCode) (number : Str)
    → d.dial_code ≡ c.dial_code
    → parse_match codes (c.dial_code ++ 32 ∷ trim number) (some d)
      ≡ record { dial_code = c.dial_code; number = trim number }
unfolding parse_match
parse_found codes c d number same =
    rw (same, drop-append c.dial_code (32 ∷ trim number), trim_space number)

country_codes-AllSolid : AllSolid country_codes
unfolding country_codes
country_codes-AllSolid =
    All-of_all (λ (c : CountryCode). all is_solid c.dial_code) country_codes refl

truthy_append : (s t : Str) (c : ℕ) → truthy (some (s ++ c ∷ t)) ≡ true
truthy_append [] t c = refl
truthy_append (d ∷ s) t c = refl

-- What the profile forms store for a listed country and a typed number, if they store one, is
-- read back as that country's dial code and the trimmed number.
pub parse_phone-stored_phone :
    (i : ℕ) (c : CountryCode) (number phone : Str)
    → get_elem? country_codes i ≡ some c
    → stored_phone c.dial_code number ≡ some phone
    → parse_phone (some phone) ≡ record { dial_code = c.dial_code; number = trim number }
unfolding parse_phone parse_with stored_phone
parse_phone-stored_phone i c number phone at stored =
    let (d, found, same) =
      find_stored country_codes i c (trim number) country_codes-AllSolid
        (solid_at country_codes i country_codes-AllSolid at) at in
    let whole : phone ≡ c.dial_code ++ 32 ∷ trim number = ground arith in
    rw (
      whole,
      truthy_append c.dial_code (trim number) 32,
      found,
      parse_found country_codes c d number same,
    )
