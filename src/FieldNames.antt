-- ===== src/FieldNames.antt =====
-- frontend/src/lib/fieldNames.ts: the order, the labels and the display of a record's fields.
pub mod Order
use tidybridge.Base.{
  ℕ, zero, suc, ◌+◌, Str, js, str_eq, String, Bool, true, false, ◌&&◌, ◌||◌, not, Option, none,
  some, List, [], ◌∷◌, ◌++◌, if◌then◌else◌, ◌==◌, leb, length, map, includes, is_digit, is_empty,
  all, keep, or_else, sort_by,
}
use tidybridge.I18n.{Lang, field_label}

-- name.split("_")
unfoldable pub split_from : Str → Str → List Str
split_from word [] = word ∷ []
split_from word (c ∷ s) =
    let closed = word ∷ split_from [] s in
    let longer = split_from (word ++ c ∷ []) s in if c == b'_' then closed else longer

abbrev join : List Str → Str
join [] = []
join (w ∷ []) = w
join (w ∷ v ∷ ws) = w ++ (32 ∷ join (v ∷ ws))

-- What the program uses of Intl and of Unicode's tables: toUpperCase on one unit, and the amount
-- and the date in the language's locale.
pub record Formats : Type 0 where
  pub upper : ℕ → Str
  pub money : Lang → Str → Str
  pub day : Lang → Str → Str

module _ (formats : Formats) where
  abbrev capitalize : Str → Str
  capitalize [] = []
  capitalize (c ∷ s) = formats.upper c ++ s

  unfoldable pub humanize_field_name : Str → Str
  unfolding split_from
  humanize_field_name name =
      join (map capitalize (keep (λ w. not (is_empty w)) (split_from [] name)))

  unfoldable pub display_field_name : Lang → Str → Str
  unfolding humanize_field_name field_label
  display_field_name lang name = or_else (field_label lang name) (humanize_field_name name)

unfoldable pub money_fields : List Str
money_fields =
    map js ("amount" ∷ "net_amount" ∷ "vat_amount" ∷ "withholding_amount" ∷ "total_amount" ∷ [])

unfoldable pub date_fields : List Str
date_fields = map js ("signup_date" ∷ "invoice_date" ∷ [])

-- /^\d+(\.\d+)?$/: the digits read, then perhaps a point and digits to the end.
abbrev is_amount_tail : Str → Bool
is_amount_tail s = not (is_empty s) && all is_digit s

unfoldable pub is_amount_from : Bool → Str → Bool
is_amount_from seen [] = seen
is_amount_from seen (c ∷ s) =
    let rest = is_amount_from true s in
    if is_digit c then rest else c == b'.' && (seen && is_amount_tail s)

-- /^-?\d+(\.\d+)?$/
unfoldable pub is_amount : Str → Bool
unfolding is_amount_from
is_amount [] = false
is_amount (c ∷ s) = if c == b'-' then is_amount_from false s else is_amount_from false (c ∷ s)

-- One place of /^\d{4}-\d{2}-\d{2}$/: a dash at the fourth and the seventh, digits elsewhere.
abbrev date_place : ℕ → ℕ → Bool
date_place i c = if i == 4 || i == 7 then c == b'-' else is_digit c

unfoldable pub is_date_from : ℕ → Str → Bool
is_date_from i [] = i == 10
is_date_from i (c ∷ s) = date_place i c && is_date_from (i + 1) s

unfoldable pub format_field_value : Formats → Lang → Str → Option Str → Option Str
unfolding is_amount is_date_from money_fields date_fields includes
format_field_value formats lang name none = none
format_field_value formats lang name (some value) =
    if includes money_fields name && is_amount value
    then some (formats.money lang value)
    else if includes date_fields name && is_date_from 0 value
    then some (formats.day lang value)
    else some value

-- SCHEMA_ORDER
unfoldable pub schema_order : List Str
schema_order = map js (
    "full_name" ∷ "email" ∷ "signup_date" ∷ "amount" ∷ "phone" ∷ "supplier_name" ∷ "supplier_tax_id"
    ∷ "customer_name" ∷ "customer_tax_id" ∷ "invoice_number" ∷ "invoice_date" ∷ "currency"
    ∷ "net_amount" ∷ "vat_amount" ∷ "withholding_amount" ∷ "total_amount" ∷ [])

-- The index of a name, or the length of the list where it is not there.
unfoldable pub rank_in : List Str → Str → ℕ
rank_in [] n = 0
rank_in (s ∷ names) n = if str_eq s n then 0 else suc (rank_in names n)

unfoldable pub order_field_names : List Str → List Str
unfolding rank_in sort_by
order_field_names names =
    sort_by (λ a b. leb (rank_in schema_order a) (rank_in schema_order b)) names

unfoldable pub is_title_field : Str → ℕ → Bool
unfolding js str_eq
is_title_field name index =
    index == 0 || str_eq name (js "full_name") || str_eq name (js "supplier_name")
