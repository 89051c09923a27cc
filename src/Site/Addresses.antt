-- ===== src/Site/Addresses.antt =====
-- marketing/src/i18n.ts and site.tsx: the addresses of the pages, and the texts of a language.
pub mod Laws
use tidybridge.Base.{
  Str, js, str_eq, starts_with, drop, String, Option, some, List, [], ◌∷◌, ◌++◌, if◌then◌else◌,
}
use tidybridge.I18n.{Lang, spanish, english}
use tidybridge.Site.Copy.{Copy, Access, key, text_at}
use tidybridge.Site.Spanish.{es_copy}
use tidybridge.Site.English.{en_copy}

-- `lang` is the attribute of <html>.
unfoldable pub page_lang : Str → Lang
page_lang lang = if str_eq lang (js "en") then english else spanish

unfoldable pub home : Lang → Str
home english = js "/en/"
home spanish = js "/"

pub data LegalPage : Type 0 where
  privacy terms dpa : LegalPage

abbrev pub legal_name : LegalPage → Str
legal_name privacy = js "privacy"
legal_name terms = js "terms"
legal_name dpa = js "dpa"

unfoldable pub legal_href : Lang → LegalPage → Str
legal_href english page = js "/en/" ++ legal_name page
legal_href spanish page = js "/" ++ legal_name page

-- path.replace(/^\/en(\/|$)/, "/")
unfoldable pub without_en : Str → Str
without_en path =
    if starts_with path (js "/en/")
    then js "/" ++ drop 4 path
    else if str_eq path (js "/en")
    then js "/"
    else path

unfoldable pub other_lang_href : Lang → Str → Str
other_lang_href english path = without_en path
other_lang_href spanish path = if str_eq path (js "/") then js "/en/" else js "/en" ++ path

-- COPY
unfoldable pub copy : Lang → Copy
copy spanish = es_copy
copy english = en_copy

-- A link: its label, and where it leads.
abbrev pub SiteLink : Type 0
SiteLink = Option String × Str

abbrev label : Lang → Str → Str → Option String
label lang group name = text_at (key group ∷ key name ∷ []) (some (copy lang))

abbrev app_url : Str
app_url = js "https://app.tidybridge.dev"

abbrev repo_url : Str
repo_url = js "https://github.com/VictorPaniello/tidybridge"

abbrev sign_in_link : Lang → SiteLink
sign_in_link lang = (label lang (js "nav") (js "signIn"), app_url ++ js "/login")

-- The links of the header to parts of the home page.
unfoldable pub section_links : Lang → List SiteLink
section_links lang =
    (label lang (js "nav") (js "how"), home lang ++ js "#como-funciona")
    ∷ (label lang (js "nav") (js "security"), home lang ++ js "#seguridad")
    ∷ (label lang (js "nav") (js "faq"), home lang ++ js "#preguntas")
    ∷ []

-- All links of SiteHeader, but for the logo; `pathname` is the page's.
unfoldable pub header_links : Lang → Str → List SiteLink
header_links lang pathname =
    section_links lang
    ++ (sign_in_link lang
        ∷ (label lang (js "nav") (js "switchTo"), other_lang_href lang pathname)
        ∷ (label lang (js "nav") (js "pilot"), home lang ++ js "#piloto")
        ∷ [])

-- The columns of SiteFooter.
unfoldable pub footer_links : Lang → List (Option String × List SiteLink)
footer_links lang =
    (
      label lang (js "footer") (js "product"),
      section_links lang
          ++ ((label lang (js "nav") (js "pilot"), home lang ++ js "#piloto")
              ∷ sign_in_link lang
              ∷ []),
    )
    ∷ (
      label lang (js "footer") (js "developers"),
      (label lang (js "footer") (js "github"), repo_url)
          ∷ (
            label lang (js "footer") (js "tidycsv"),
            js "https://github.com/VictorPaniello/tidycsv",
          )
          ∷ [],
    )
    ∷ (
      label lang (js "footer") (js "legal"),
      (label lang (js "footer") (js "terms"), legal_href lang terms)
          ∷ (label lang (js "footer") (js "privacy"), legal_href lang privacy)
          ∷ (label lang (js "footer") (js "dpa"), legal_href lang dpa)
          ∷ (label lang (js "footer") (js "contact"), js "mailto:hello@tidybridge.dev")
          ∷ [],
    )
    ∷ []
