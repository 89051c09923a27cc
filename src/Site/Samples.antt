-- ===== src/Site/Samples.antt =====
-- marketing/src/format.ts and sections/Samples.tsx, sections/InvoiceDemo.tsx: the sample invoices.
-- The samples themselves, of samples.json, are a parameter.
pub mod Laws
use tidybridge.Base.{
  ℕ, suc, ◌+◌, ◌-◌, ◌%◌, String, Str, js, str_eq, Bool, true, false, not, Option, none, some, List,
  [], ◌∷◌, ◌++◌, if◌then◌else◌, ◌==◌, keep, length, map, includes, or_else,
}
use tidybridge.I18n.{Lang, spanish, english}
use tidybridge.Site.Copy.{key, text_at}
use tidybridge.Site.Addresses.{copy}

-- What the site uses of Number, String and Intl: Number(text), String(number), an amount with two
-- decimals and a date of its three numbers.
pub record SiteFormats : Type 1 where
  pub Number : Type 0
  pub number : Str → Number
  pub shown : Number → Str
  pub money : Lang → Number → Str
  pub day : Lang → List Number → Str

pub data Field : Type 0 where
  supplier_name supplier_tax_id invoice_number invoice_date : Field
  net_amount vat_amount withholding_amount total_amount : Field

unfoldable pub shown_fields : List Field
shown_fields =
    supplier_name ∷ supplier_tax_id ∷ invoice_number ∷ invoice_date ∷ net_amount ∷ vat_amount
    ∷ withholding_amount ∷ total_amount ∷ []

unfoldable pub field_name : Field → Str
field_name supplier_name = js "supplier_name"
field_name supplier_tax_id = js "supplier_tax_id"
field_name invoice_number = js "invoice_number"
field_name invoice_date = js "invoice_date"
field_name net_amount = js "net_amount"
field_name vat_amount = js "vat_amount"
field_name withholding_amount = js "withholding_amount"
field_name total_amount = js "total_amount"

-- MONEY
unfoldable pub is_money : Field → Bool
is_money net_amount = true
is_money vat_amount = true
is_money withholding_amount = true
is_money total_amount = true
is_money _ = false

-- text.split("-")
unfoldable pub dashes_from : Str → Str → List Str
dashes_from part [] = part ∷ []
dashes_from part (c ∷ s) =
    let closed = part ∷ dashes_from [] s in
    let longer = dashes_from (part ++ c ∷ []) s in if c == b'-' then closed else longer

pub data Value (N : Type 0) : Type 0 where
  absent : Value N
  text : Str → Value N
  number : N → Value N

pub record Invoice (N : Type 0) : Type 0 where
  pub supplier_name : Str
  pub supplier_tax_id : Str
  pub customer_name : Str
  pub customer_tax_id : Str
  pub invoice_number : Str
  pub invoice_date : Str
  pub currency : Str
  pub net_amount : N
  pub vat_amount : N
  pub withholding_amount : Option N
  pub total_amount : N

-- An issue: its field and its text in each language.
pub record SampleIssue : Type 0 where
  pub field : Str
  pub es : Str
  pub en : Str

pub record Sample (N : Type 0) : Type 0 where
  pub id : Str
  pub es_label : Str
  pub en_label : Str
  pub image : Str
  pub invoice : Invoice N
  pub issues : List SampleIssue

-- invoice[field]
unfoldable pub invoice_value : {N : Type 0} → Invoice N → Field → Value N
invoice_value v Field.supplier_name = text v.supplier_name
invoice_value v Field.supplier_tax_id = text v.supplier_tax_id
invoice_value v Field.invoice_number = text v.invoice_number
invoice_value v Field.invoice_date = text v.invoice_date
invoice_value v Field.net_amount = number v.net_amount
invoice_value v Field.vat_amount = number v.vat_amount
invoice_value v Field.withholding_amount = elim v.withholding_amount [
  | none ↦ absent
  | some n ↦ number n
]
invoice_value v Field.total_amount = number v.total_amount

abbrev in_lang : Lang → SampleIssue → Str
in_lang spanish issue = issue.es
in_lang english issue = issue.en

-- copy.fields[name]
unfoldable pub copy_field : Lang → Str → Option String
copy_field lang name = text_at (key (js "fields") ∷ key name ∷ []) (some (copy lang))

module _ (formats : SiteFormats) where
  abbrev as_number : Value (formats.Number) → Option (formats.Number)
  as_number absent = none
  as_number (text s) = some (formats.number s)
  as_number (number n) = some n

  abbrev as_text : Value (formats.Number) → Option Str
  as_text absent = none
  as_text (text s) = some s
  as_text (number n) = some (formats.shown n)

  abbrev is_date : Field → Bool
  is_date Field.invoice_date = true
  is_date _ = false

  -- `none` is null, which is shown as a dash.
  unfoldable pub format_value : Lang → Field → Value (formats.Number) → Str
  format_value lang field value = elim (as_text value) [
    | none ↦ js "—"
    | some shown ↦
        if is_money field
        then elim (as_number value) [ none ↦ js "—" | some n ↦ formats.money lang n ]
        else if is_date field
        then formats.day lang (map formats.number (dashes_from [] shown))
        else shown
  ]

  -- The panel of a sample: its rows, and what is said of its issues.
  unfoldable pub sample_rows : Lang → Sample (formats.Number) → List (Option String × Str)
  sample_rows lang sample =
      map
        (λ field. (
          copy_field lang (field_name field),
          format_value lang field (invoice_value sample.invoice field),
        ))
        shown_fields

  unfoldable pub issue_texts : Lang → Sample (formats.Number) → List (Option String × Str)
  issue_texts lang sample =
      map (λ issue. (copy_field lang issue.field, in_lang lang issue)) sample.issues

  -- InvoiceDemo: the fields that the invoice has.
  abbrev has_value : Value (formats.Number) → Bool
  has_value absent = false
  has_value _ = true

  unfoldable pub demo_fields : Sample (formats.Number) → List Field
  demo_fields sample = keep (λ field. has_value (invoice_value sample.invoice field)) shown_fields

pub data TabKey : Type 0 where
  arrow_right arrow_left other_key : TabKey

-- onKeyDown of the tabs, of which there are `tabs`: (active + step + tabs) % tabs
unfoldable pub next_tab : ℕ → TabKey → ℕ → ℕ
next_tab tabs arrow_right active = (active + 1 + tabs) % tabs
next_tab tabs arrow_left active = (active + tabs - 1) % tabs
next_tab tabs other_key active = active
