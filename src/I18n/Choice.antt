-- ===== src/I18n/Choice.antt =====
-- lib/i18n.ts: the language that is chosen and remembered; lib/legal.ts and lib/greeting.ts, which
-- follow it.
use tidybridge.Base.{
  Str, js, str_eq, Bool, false, ◌≡◌, Option, none, some, [], ◌∷◌, ◌++◌, if◌then◌else◌, arith,
  truthy, or_else,
}
use tidybridge.I18n.{Lang, spanish, english, t, str}
use tidybridge.Types.{CurrentUser}

-- The module's `current`, what localStorage holds under tidybridge_lang, and whether the browser
-- blocks storage, so that getItem and setItem throw.
pub record Choice : Type 0 where
  pub current : Lang
  pub saved : Option Str
  pub blocked : Bool

unfoldable pub code_of : Lang → Str
code_of spanish = js "es"
code_of english = js "en"

abbrev is_english : Option Str → Bool
is_english none = false
is_english (some s) = str_eq s (js "en")

unfoldable pub stored_lang : Choice → Lang
stored_lang c = if c.blocked then spanish else if is_english c.saved then english else spanish

-- A page load: `let current = stored()`.
unfoldable pub reload : Choice → Choice
reload c = record c { current = stored_lang c }

unfoldable pub set_lang : Lang → Choice → Choice
set_lang lang c =
    if c.blocked
    then record c { current = lang }
    else record c { current = lang; saved = some (code_of lang) }

unfoldable pub locale : Lang → Str
locale spanish = js "es-ES"
locale english = js "en-GB"

pub record LegalUrls : Type 0 where
  pub privacy : Str
  pub terms : Str
  pub dpa : Str
  pub pilot : Str

abbrev legal_base : Lang → Str
legal_base spanish = js "https://tidybridge.dev"
legal_base english = js "https://tidybridge.dev/en"

unfoldable pub legal_urls : Lang → LegalUrls
legal_urls lang = record {
  privacy = legal_base lang ++ js "/privacy";
  terms = legal_base lang ++ js "/terms";
  dpa = legal_base lang ++ js "/dpa";
  pilot = legal_base lang ++ js "/#piloto";
}

unfoldable pub greeting : Lang → CurrentUser → Str
greeting lang user =
    if truthy user.first_name
    then t lang (js "hello") ((js "name", str (or_else user.first_name [])) ∷ [])
    else user.email

-- A chosen language is in use at once, and after the next page load too: there it is lost only
-- where the browser blocks storage, and then it is Spanish.
pub reload-set_lang :
    (lang : Lang) (c : Choice)
    → ((set_lang lang c).current ≡ lang)
      × ((reload (set_lang lang c)).current ≡ (if c.blocked then spanish else lang))
unfolding reload set_lang stored_lang code_of str_eq js
reload-set_lang spanish c = (ground arith, ground arith)
reload-set_lang english c = (ground arith, ground arith)
