-- ===== src/Mapping/Changes.antt =====
-- ColumnMappingReviewPage.tsx: the names that are allowed and the summary of what a save changed.
pub mod Laws
use tidybridge.Base.{
  ℕ, ◌+◌, Str, js, str_eq, String, Bool, true, false, not, ◌&&◌, ◌||◌, Option, none, some, List, [],
  ◌∷◌, ◌++◌, if◌then◌else◌, ◌==◌, leb, length, any, all, is_lower, is_digit, truthy, or_else,
  lookup, insert, includes,
}
use tidybridge.I18n.{Lang, t, Var, str}
use tidybridge.Types.{FieldResolution}
use tidybridge.Records.Handlers.{add_id}

unfoldable pub field_types : List Str
unfolding js
field_types = js "string" ∷ js "email" ∷ js "date" ∷ js "currency" ∷ js "integer" ∷ js "phone" ∷ []

-- /^[a-z][a-z0-9_]{0,99}$/
unfoldable pub is_field_name : Str → Bool
is_field_name [] = false
is_field_name (c ∷ s) =
    is_lower c && (leb (length s) 99 && all (λ d. is_lower d || is_digit d || d == b'_') s)

unfoldable pub field_name_error : Lang → Option Str → Option Str
field_name_error lang name =
    if not (truthy name)
    then none
    else if is_field_name (or_else name [])
    then none
    else some (t lang (js "fieldNameRule") [])

unfoldable pub type_label : Lang → Option Str → Str
type_label lang none = js "—"
type_label lang (some type) =
    let label = t lang (js "type_" ++ type) [] in
    if str_eq label (js "type_" ++ type) then type else label

-- a === b on string | null
abbrev pub opt_eq : Option Str → Option Str → Bool
opt_eq none none = true
opt_eq (some a) (some b) = str_eq a b
opt_eq none (some b) = false
opt_eq (some a) none = false

abbrev var : String → Str → Str × Var
var name value = (js name, str value)

abbrev pub is_required : FieldResolution → Bool
is_required e = or_else e.required false

-- What is said of one column, if it is in the old mapping and something changed.
unfoldable pub target_change : Lang → FieldResolution → FieldResolution → Str
target_change lang old entry =
    if truthy entry.target_field
    then t lang (js "changeRemapped") (
        var "raw" entry.raw_column
        ∷ var "to" (or_else entry.target_field [])
        ∷ var "from" (or_else old.target_field (t lang (js "unmapped") []))
        ∷ [])
    else t lang (js "changeDropped")
        (var "raw" entry.raw_column ∷ var "from" (or_else old.target_field []) ∷ [])

unfoldable pub type_change : Lang → FieldResolution → FieldResolution → Str
type_change lang old entry = t lang (js "changeType") (
    var "field" (or_else entry.target_field [])
    ∷ var "from" (type_label lang old.type)
    ∷ var "to" (type_label lang entry.type)
    ∷ [])

unfoldable pub required_change : Lang → FieldResolution → Str
required_change lang entry =
    t lang (if is_required entry then js "changeRequired" else js "changeNotRequired")
      (var "field" (or_else entry.target_field []) ∷ [])

unfoldable pub change_of : Lang → FieldResolution → FieldResolution → Option Str
change_of lang old entry =
    if not (opt_eq old.target_field entry.target_field)
    then some (target_change lang old entry)
    else if not (opt_eq old.type entry.type)
    then some (type_change lang old entry)
    else if (is_required old && not (is_required entry))
        || (not (is_required old) && is_required entry)
    then some (required_change lang entry)
    else none

-- new Map(oldResolutions.map((e) => [e.raw_column, e])): of two entries the later one counts.
unfoldable pub by_raw :
    List (Str × FieldResolution) → List FieldResolution → List (Str × FieldResolution)
by_raw map [] = map
by_raw map (e ∷ es) = by_raw (insert e.raw_column e map) es

abbrev pub push_change : Option Str → List Str → List Str
push_change none changes = changes
push_change (some text) changes = text ∷ changes

-- `if (!old) continue;` and the change of the entry, if any.
unfoldable pub entry_change : Lang → Option FieldResolution → FieldResolution → Option Str
entry_change lang none entry = none
entry_change lang (some old) entry = change_of lang old entry

unfoldable pub entry_changes : Lang → List (Str × FieldResolution) → List FieldResolution → List Str
entry_changes lang old [] = []
entry_changes lang old (entry ∷ es) =
    push_change (entry_change lang (lookup entry.raw_column old) entry) (entry_changes lang old es)

-- new Set(fields)
unfoldable pub to_set : List Str → List Str → List Str
to_set set [] = set
to_set set (f ∷ fields) = to_set (add_id f set) fields

abbrev join : List Str → Str
join [] = []
join (w ∷ []) = w
join (w ∷ v ∷ ws) = w ++ (44 ∷ 32 ∷ join (v ∷ ws))

unfoldable pub sets_differ : List Str → List Str → Bool
sets_differ old new = not (length old == length new) || any (λ f. not (includes new f)) old

unfoldable pub dedup_change : Lang → List Str → List Str → Option Str
dedup_change lang old new =
    if sets_differ (to_set [] old) (to_set [] new)
    then some (
        if length new == 0
        then t lang (js "changeDedupOff") []
        else t lang (js "changeDedupOn") (var "fields" (join new) ∷ []))
    else none

unfoldable pub summarize_changes :
    Lang → List FieldResolution → List FieldResolution → List Str → List Str → List Str
summarize_changes lang old new old_keys new_keys =
    entry_changes lang (by_raw [] old) new ++ push_change (dedup_change lang old_keys new_keys) []
