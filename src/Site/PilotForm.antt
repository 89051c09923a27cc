-- ===== src/Site/PilotForm.antt =====
-- marketing/src/sections/PilotForm.tsx: the request for access. The browser's FormData is a function
-- from a field's name to its value.
pub mod Laws
use tidybridge.Base.{
  ℕ, Str, js, str_eq, trim, is_empty, Bool, true, false, Option, none, some, List, [], ◌∷◌, ◌++◌,
  ◌==◌, if◌then◌else◌, truthy, or_else, insert,
}
use tidybridge.I18n.{Lang, spanish, english}
use tidybridge.Client.Request.{Build}

pub data Status : Type 0 where
  idle sending sent error : Status

pub record Form : Type 0 where
  pub status : Status
  pub in_flight : Bool

abbrev pub fresh_form : Form
fresh_form = record { status = idle; in_flight = false }

abbrev pub FormFields : Type 0
FormFields = Str → Option Str

pub data JsonField : Type 0 where
  null : JsonField
  text : Str → JsonField
  flag : Bool → JsonField

pub record PilotRequest : Type 0 where
  pub url : Str
  pub headers : List (Str × Str)
  pub body : List (Str × JsonField)

abbrev given : Option Str → JsonField
given none = null
given (some s) = text s

-- String(data.get(key) ?? "").trim() || null
unfoldable pub optional : FormFields → Str → JsonField
optional values key =
    let value = trim (or_else (values key) []) in if is_empty value then null else text value

abbrev lang_name : Lang → Str
lang_name spanish = js "es"
lang_name english = js "en"

abbrev is_on : Option Str → Bool
is_on none = false
is_on (some s) = str_eq s (js "on")

unfoldable pub pilot_body : Lang → FormFields → List (Str × JsonField)
pilot_body lang values =
    (js "name", given (values (js "name")))
    ∷ (js "firm", given (values (js "firm")))
    ∷ (js "email", given (values (js "email")))
    ∷ (js "phone", optional values (js "phone"))
    ∷ (js "volume", optional values (js "volume"))
    ∷ (js "message", optional values (js "message"))
    ∷ (js "language", text (lang_name lang))
    ∷ (js "privacy_accepted", flag (is_on (values (js "privacy"))))
    ∷ (js "website", text (or_else (values (js "website")) []))
    ∷ []

unfoldable pub pilot_request : Build → Lang → FormFields → PilotRequest
pilot_request build lang values = record {
  url = build.api_url ++ js "/pilot-requests";
  headers =
      let headers = (js "Content-Type", js "application/json") ∷ [] in
      if truthy build.gate_password
      then insert (js "X-Staging-Password") (or_else build.gate_password []) headers
      else headers;
  body = pilot_body lang values;
}

-- onSubmit up to the fetch: what is sent, if anything.
unfoldable pub on_submit : Build → Lang → FormFields → Form → Option PilotRequest × Form
on_submit build lang values f =
    if f.in_flight
    then (none, f)
    else (some (pilot_request build lang values), record { status = sending; in_flight = true })

-- The rest of onSubmit, on the answer's status; `none` is a fetch that throws.
unfoldable pub on_answer : Option ℕ → Form → Form
on_answer none f = record { status = error; in_flight = false }
on_answer (some status) f = record {
  status = if status == 202 then sent else error;
  in_flight = false;
}
