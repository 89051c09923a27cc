-- ===== src/ServerText.antt =====
-- frontend/src/lib/serverText.ts: the API's English sentences, translated by pattern.
use tidybridge.Base.{
  ℕ, String, Str, js, Bool, true, false, not, ◌||◌, Option, none, some, List, [], ◌∷◌, ◌++◌,
  if◌then◌else◌, ◌==◌, is_space, is_digit, is_empty, starts_with, drop, length, str_eq,
}
use tidybridge.I18n.{Lang, t, Vars, str}

-- The pieces of the regular expressions: literal text, ['"], and (\S+), (.+) or (\d+).
pub data Class : Type 0 where
  non_space dot digit : Class

pub data Piece : Type 0 where
  lit : String → Piece
  quote : Piece
  group : Class → Piece

abbrev pub matches_class : Class → ℕ → Bool
matches_class non_space c = not (is_space c)
matches_class dot c = not (c == 10 || c == 13 || c == 0x2028 || c == 0x2029)
matches_class digit c = is_digit c

-- The groups of a match, or null.
abbrev pub Captures : Type 0
Captures = Option (List Str)

abbrev or_try : Captures → Captures → Captures
or_try none later = later
or_try (some found) later = some found

-- A greedy group that has read `read`: it takes one more character if what follows can still
-- match, and closes here if not.
unfoldable pub group_from : (Str → Captures) → Class → Str → Str → Captures
group_from next class read [] = none
group_from next class read (c ∷ s) =
    let longer = group_from next class (read ++ c ∷ []) s in
    let closed : Captures = elim (next s) [
      | none ↦ none
      | some found ↦ some ((read ++ c ∷ []) ∷ found)
    ] in
    if matches_class class c then or_try longer closed else none

-- re.exec at the start of the text; `end` is the `$` of the expression.
unfoldable pub exec : List Piece → Bool → Str → Captures
unfolding starts_with js
exec [] end s = if not end || is_empty s then some [] else none
exec (lit text ∷ ps) end s =
    let rest = exec ps end (drop (length (js text)) s) in
    if starts_with s (js text) then rest else none
exec (quote ∷ ps) end [] = none
exec (quote ∷ ps) end (c ∷ s) =
    let rest = exec ps end s in if c == b'\'' || c == b'"' then rest else none
exec (group class ∷ ps) end s = group_from (exec ps end) class [] s

pub record Pattern : Type 0 where
  pub pieces : List Piece
  pub ends : Bool
  pub key : String
  pub names : List String

abbrev rule : List Piece → Bool → String → List String → Pattern
rule pieces ends key names = record { pieces = pieces; ends = ends; key = key; names = names }

-- PATTERNS, in order.
unfoldable pub patterns : List Pattern
patterns =
    rule (lit "extractor unsure - check against the document" ∷ []) true "srv_extractorUnsure" []
    ∷ rule (lit "starts like a spreadsheet formula - check against the document" ∷ []) true
        "srv_formula" []
    ∷ rule
        (lit "check digit doesn't match - not a valid Spanish NIF/CIF, check against the document"
          ∷ [])
        true "srv_checkDigit" []
    ∷ rule (lit "same tax ID as the supplier - check who issued the invoice" ∷ []) true
        "srv_sameTaxId" []
    ∷ rule
        (lit "net + VAT - withholding = "
          ∷ group non_space
          ∷ lit ", but total is "
          ∷ group non_space
          ∷ [])
        true "srv_totals" ("a" ∷ "b" ∷ [])
    ∷ rule (lit "required column missing from input" ∷ []) true "srv_requiredColumn" []
    ∷ rule (lit "required field is empty" ∷ []) true "srv_requiredEmpty" []
    ∷ rule (lit "invalid email format" ∷ []) true "srv_badEmail" []
    ∷ rule (lit "unparseable date" ∷ []) true "srv_badDate" []
    ∷ rule (lit "unparseable currency amount" ∷ []) true "srv_badAmount" []
    ∷ rule (lit "unparseable integer" ∷ []) true "srv_badInteger" []
    ∷ rule (lit "phone number too short" ∷ []) true "srv_shortPhone" []
    ∷ rule (lit "Couldn't read " ∷ quote ∷ group dot ∷ quote ∷ lit " as a CSV or Excel file" ∷ [])
        false "srv_unreadable" ("file" ∷ [])
    ∷ rule (lit "File exceeds the " ∷ group digit ∷ lit " MB upload limit" ∷ []) true "srv_tooBig"
        ("mb" ∷ [])
    ∷ rule
        (lit "Too many rows: "
          ∷ group digit
          ∷ lit " (the limit is "
          ∷ group digit
          ∷ lit " per upload)"
          ∷ [])
        false "srv_tooManyRows" ("rows" ∷ "max" ∷ [])
    ∷ rule
        (quote
          ∷ group dot
          ∷ quote
          ∷ lit " is too large once uncompressed (over "
          ∷ group digit
          ∷ lit " MB)"
          ∷ [])
        true "srv_tooBigUncompressed" ("file" ∷ "mb" ∷ [])
    ∷ rule (lit "No invoice found in " ∷ quote ∷ group dot ∷ quote ∷ []) true "srv_noInvoice"
        ("file" ∷ [])
    ∷ rule (lit "The document couldn't be read" ∷ []) false "srv_docUnreadable" []
    ∷ rule (lit "The document was declined by the extraction model" ∷ []) true "srv_declined" []
    ∷ rule (lit "Too many invoices in one document" ∷ []) false "srv_tooManyInvoices" []
    ∷ rule (lit "Invoice extraction is temporarily unavailable" ∷ []) false "srv_unavailable" []
    ∷ rule (lit "Invoice extraction isn't enabled on this server" ∷ []) false "srv_extractionOff" []
    ∷ rule (lit "This record is flagged - fix or approve it first" ∷ []) true "srv_flagged" []
    ∷ rule (lit "Password must be at least " ∷ group digit ∷ lit " characters long" ∷ []) true
        "srv_pwLength" ("n" ∷ [])
    ∷ rule (lit "Password must contain at least one uppercase letter" ∷ []) true "srv_pwUpper" []
    ∷ rule (lit "Password must contain at least one lowercase letter" ∷ []) true "srv_pwLower" []
    ∷ rule (lit "Password must contain at least one digit" ∷ []) true "srv_pwDigit" []
    ∷ rule (lit "Password must contain at least one special character" ∷ []) true "srv_pwSpecial" []
    ∷ rule (lit "Current password is incorrect" ∷ []) true "srv_currentPasswordWrong" []
    ∷ rule (lit "Record not found" ∷ []) true "srv_recordNotFound" []
    ∷ rule (lit "Ingestion run not found" ∷ []) true "srv_runNotFound" []
    ∷ rule (lit "This record predates per-run schema tracking" ∷ []) false "srv_predatesSchema" []
    ∷ rule (lit "Signup is by invitation only" ∷ []) true "srv_signupClosed" []
    ∷ []

-- Object.fromEntries(names.map((n, i) => [n, m[i + 1]]))
unfoldable pub bind_names : List String → List Str → Vars
unfolding js
bind_names [] groups = []
bind_names (n ∷ names) [] = []
bind_names (n ∷ names) (g ∷ groups) = (js n, str g) ∷ bind_names names groups

unfoldable pub translate_by : List Pattern → Lang → Str → Str
unfolding exec bind_names js t
translate_by [] lang text = text
translate_by (p ∷ ps) lang text = elim (exec p.pieces p.ends text) [
  | none ↦ translate_by ps lang text
  | some groups ↦ t lang (js p.key) (bind_names p.names groups)
]

unfoldable pub translate_server_text : Lang → Str → Str
unfolding patterns translate_by
translate_server_text lang text = translate_by patterns lang text

-- A code such as LOGIN_BAD_CREDENTIALS; with no translation, the generic message.
unfoldable pub translate_error_code : Lang → Str → Str
unfolding t js str_eq
translate_error_code lang code =
    let text = t lang (js "code_" ++ code) [] in
    if str_eq text (js "code_" ++ code) then t lang (js "err_generic") [] else text
