-- ===== src/Client/Errors/Messages.antt =====
-- What an error says to the user: client.ts over serverText.ts and i18n.ts.
use tidybridge.Base.{
  ℕ, Str, js, str_eq, str_eq_iff, str_eq_refl, ◌≡◌, ◌≢◌, refl, ◌∙◌, [], ◌∷◌, ◌++◌, true, false,
  arith, ◌⊎◌, is_digit, all, some, Option, List, drop, append_assoc,
}
use tidybridge.I18n.{Lang, spanish, english, t, str}
use tidybridge.Client.Errors.{extract_error_message, text, coded, reword, generic_message, is_code}
use tidybridge.ServerText.{
  translate_server_text, translate_by, patterns, Pattern, exec, group, group_from, lit, digit,
  bind_names,
}

-- The texts that name no particular error.
abbrev pub IsGeneric : Lang → Str → Type 0
IsGeneric lang s =
    (s ≡ t lang (js "err_sessionExpired") [])
    ⊎ (s ≡ t lang (js "err_tooMany") [])
    ⊎ (s ≡ t lang (js "err_invalidInput") [])
    ⊎ (s ≡ t lang (js "err_server") [])
    ⊎ (s ≡ t lang (js "err_generic") [])

generic_message-IsGeneric :
    (lang : Lang) (status : ℕ) → IsGeneric lang (generic_message lang status)
unfolding generic_message
generic_message-IsGeneric lang status = ground arith

-- A sentence of the API that is not a bare code is never shown as it came: what the user reads
-- is a translation that differs from it, or one of the five general texts.
pub sentence_never_raw :
    (lang : Lang) (status : ℕ) (s : Str)
    → is_code s ≡ false
    → ((extract_error_message lang status (text s) ≡ translate_server_text lang s)
        × (translate_server_text lang s ≢ s))
      ⊎ IsGeneric lang (extract_error_message lang status (text s))
unfolding extract_error_message reword
sentence_never_raw lang status s plain =
    ground
      (arith, str_eq_iff (translate_server_text lang s) s, generic_message-IsGeneric lang status)

-- A sentence whose translation is the sentence itself is replaced by a general text.
pub fixed_sentence_lost :
    (lang : Lang) (status : ℕ) (s : Str)
    → is_code s ≡ false
    → translate_server_text lang s ≡ s
    → IsGeneric lang (extract_error_message lang status (text s))
unfolding extract_error_message reword
fixed_sentence_lost lang status s plain fixed =
    ground
      (arith, str_eq_iff (translate_server_text lang s) s, generic_message-IsGeneric lang status)

-- A greedy group of digits takes the whole number that stands before something else.
group_digits :
    (next : Str → Option (List Str)) (found : List Str) (d : ℕ) (rest : Str)
    → is_digit d ≡ false
    → next (d ∷ rest) ≡ some found
    → (read : Str) (c : ℕ) (n : Str) → all is_digit (c ∷ n) ≡ true
    → group_from next digit read (c ∷ (n ++ d ∷ rest)) ≡ some ((read ++ c ∷ n) ∷ found)
unfolding group_from
group_digits next found d rest stop after read c [] h = ground arith
group_digits next found d rest stop after read c (e ∷ n) h =
    let inner = group_digits next found d rest stop after (read ++ c ∷ []) e n (ground arith) in
    let joined : (read ++ c ∷ []) ++ e ∷ n ≡ read ++ c ∷ e ∷ n =
      append_assoc read (c ∷ []) (e ∷ n) in
    rw (inner, joined) (ground arith)

-- The API's sentence on a password that is too short, for any minimum.
abbrev pub too_short_sentence : Str → Str
too_short_sentence n = js "Password must be at least " ++ (n ++ js " characters long")

translate_hit :
    (p : Pattern) (ps : List Pattern) (lang : Lang) (s : Str) (groups : List Str)
    → exec p.pieces p.ends s ≡ some groups
    → translate_by (p ∷ ps) lang s ≡ t lang (js p.key) (bind_names p.names groups)
unfolding translate_by
translate_hit p ps lang s groups h = rw (h, translate_by)

abbrev too_short_pattern : Pattern
too_short_pattern = record {
  pieces = lit "Password must be at least " ∷ group digit ∷ lit " characters long" ∷ [];
  ends = true;
  key = "srv_pwLength";
  names = "n" ∷ [];
}

-- The patterns before this one do not match.
skip_to_length :
    (lang : Lang) (c : ℕ) (n : Str)
    → translate_server_text lang (too_short_sentence (c ∷ n))
      ≡ translate_by (drop 23 patterns) lang (too_short_sentence (c ∷ n))
unfolding translate_server_text js
skip_to_length lang c n = refl

translate_too_short :
    (lang : Lang) (c : ℕ) (n : Str)
    → all is_digit (c ∷ n) ≡ true
    → translate_server_text lang (too_short_sentence (c ∷ n))
      ≡ t lang (js "srv_pwLength") ((js "n", str (c ∷ n)) ∷ [])
unfolding exec js patterns bind_names
translate_too_short lang c n h =
    skip_to_length lang c n
    ∙ translate_hit too_short_pattern (drop 24 patterns) lang (too_short_sentence (c ∷ n))
        ((c ∷ n) ∷ [])
        (group_digits (exec (lit " characters long" ∷ []) true) [] 32 (js "characters long") refl
          refl [] c n h)

abbrev spanish_sentence : Str → Str
spanish_sentence n = js "La contraseña debe tener al menos " ++ (n ++ js " caracteres")

spanish_text :
    (c : ℕ) (n : Str)
    → t spanish (js "srv_pwLength") ((js "n", str (c ∷ n)) ∷ []) ≡ spanish_sentence (c ∷ n)
unfolding t js str_eq
spanish_text c n = refl

english_text :
    (c : ℕ) (n : Str)
    → t english (js "srv_pwLength") ((js "n", str (c ∷ n)) ∷ []) ≡ too_short_sentence (c ∷ n)
unfolding t js str_eq
english_text c n = refl

spanish-ne-sentence :
    (c : ℕ) (n : Str) → str_eq (spanish_sentence (c ∷ n)) (too_short_sentence (c ∷ n)) ≡ false
unfolding str_eq js
spanish-ne-sentence c n = refl

-- For any minimum written in digits: in Spanish the API's sentence on a password that is too
-- short is shown translated, with its number; in English, where the translation is the sentence
-- itself, the general text is shown instead.
pub too_short_shown :
    (c : ℕ) (n : Str)
    → all is_digit (c ∷ n) ≡ true
    → (extract_error_message spanish 400
          (coded (some (js "RESET_PASSWORD_INVALID_PASSWORD")) (some (too_short_sentence (c ∷ n))))
        ≡ js "La contraseña debe tener al menos " ++ ((c ∷ n) ++ js " caracteres"))
      × (extract_error_message english 400 (
            coded (some (js "RESET_PASSWORD_INVALID_PASSWORD")) (some (too_short_sentence (c ∷ n))))
          ≡ t english (js "err_generic") [])
unfolding extract_error_message generic_message
too_short_shown c n h = (
  ground (arith, translate_too_short spanish c n h ∙ spanish_text c n, spanish-ne-sentence c n),
  ground (
    arith,
    translate_too_short english c n h ∙ english_text c n,
    str_eq_refl (too_short_sentence (c ∷ n)),
  ),
)
