-- ===== src/Pages/Widgets.antt =====
-- frontend/src/components: the theme switch, the copy button, the dialog and the table of an upload.
use tidybridge.Base.{
  ◌++◌, Str, js, Bool, true, not, ◌&&◌, Option, none, some, List, [], if◌then◌else◌, ◌==◌, length,
  map, truthy, or_else,
}
use tidybridge.I18n.{Lang, t}
use tidybridge.Types.{ClientRecord}
use tidybridge.FieldNames.{Formats, display_field_name, format_field_value}
use tidybridge.Records.{field_names, field_value}
use tidybridge.PasswordRules.{Rule, password_rules}
use tidybridge.Phone.Countries.{CountryCode, country_codes}

-- The document and the storage that ThemeToggle writes to, with its state.
pub record Theme : Type 0 where
  pub dark : Bool
  pub dark_class : Bool
  pub stored : Option Str

-- useState(isDarkNow)
unfoldable pub theme_init : Bool → Option Str → Theme
theme_init dark_class stored = record {
  dark = dark_class;
  dark_class = dark_class;
  stored = stored;
}

-- useEffect
unfoldable pub theme_effect : Theme → Theme
theme_effect s = record s {
  dark_class = s.dark;
  stored = some (if s.dark then js "dark" else js "light");
}

-- onClick, and the effect that follows it.
unfoldable pub toggle_theme : Theme → Theme
unfolding theme_effect
toggle_theme s = theme_effect (record s { dark = not s.dark })

unfoldable pub theme_label : Lang → Theme → Str
theme_label lang s = t lang (if s.dark then js "lightTheme" else js "darkTheme") []

-- CopyButton: `copied` is its state, and the argument whether the clipboard took the text.
unfoldable pub copy_end : Bool → Bool → Bool
copy_end taken copied = if taken then true else copied

unfoldable pub copy_label : Lang → Option Str → Bool → Str
copy_label lang label copied =
    if copied then t lang (js "copied") [] else or_else label (t lang (js "copy") [])

-- What can be clicked of an open ConfirmDialog, and what a click does.
pub data DialogPart : Type 0 where
  overlay inside cancel_button confirm_button : DialogPart

pub data DialogAction : Type 0 where
  confirms cancels : DialogAction

unfoldable pub dialog_click : DialogPart → Option DialogAction
dialog_click overlay = some cancels
dialog_click inside = none
dialog_click cancel_button = some cancels
dialog_click confirm_button = some confirms

-- UploadResultsTable: whether it asks for a review of the columns, and its table, unless there are
-- no records.
unfoldable pub asks_review : Bool → Option Str → Bool
asks_review mapping_is_default fingerprint = mapping_is_default && truthy fingerprint

module _ (formats : Formats) (lang : Lang) where
  abbrev shown_value : ClientRecord → Str → Str
  shown_value r name = or_else (format_field_value formats lang name (field_value r name)) (js "—")

  unfoldable pub results_table : List ClientRecord → Option (List Str × List (List Str))
  results_table records =
      if length records == 0
      then none
      else some (
        map (display_field_name formats lang) (field_names records),
        map (λ r. map (shown_value r) (field_names records)) records,
      )

-- PasswordInput: the type of the input, and the label of the button that shows and hides it.
unfoldable pub password_input : Lang → Bool → Str × Str
password_input lang visible =
    if visible
    then (js "text", t lang (js "hidePassword") [])
    else (js "password", t lang (js "showPassword") [])

-- PhoneInput: the choices of a dial code, value and text.
unfoldable pub dial_options : List (Str × Str)
dial_options =
    map (λ (c : CountryCode). (c.dial_code, c.iso2 ++ (js " " ++ c.dial_code))) country_codes

-- PasswordRulesList: each rule's text, whether it is met, and what is read out for that.
unfoldable pub rules_list : Lang → Str → List (Str × Bool × Str)
rules_list lang password =
    map
      (λ (r : Rule). (
        t lang r.label [],
        r.test password,
        t lang (if r.test password then js "ruleMet" else js "ruleNotMet") [],
      ))
      password_rules
