-- ===== src/Mapping/View.antt =====
-- frontend/src/pages/ColumnMappingReviewPage.tsx: what the page shows, without its markup.
pub mod Laws
use tidybridge.Base.{
  ℕ, Str, js, Bool, true, false, not, ◌&&◌, ◌||◌, Option, none, some, List, [], ◌∷◌, ◌++◌,
  if◌then◌else◌, ◌==◌, map, truthy, or_else, lookup, includes,
}
use tidybridge.I18n.{Lang, t, str}
use tidybridge.Types.{FieldResolution, IngestResult}
use tidybridge.Mapping.Changes.{field_types, field_name_error, type_label, is_required}
use tidybridge.Mapping.Review.{Review, has_invalid_field_name}

abbrev text : Lang → Str → Str
text lang key = t lang key []

-- values.join(", ")
abbrev commas : List Str → Str
commas [] = []
commas (v ∷ []) = v
commas (v ∷ w ∷ vs) = v ++ (js ", " ++ commas (w ∷ vs))

-- storedResult?.sample_values ?? {}
abbrev pub samples_of : Option IngestResult → List (Str × List Str)
samples_of none = []
samples_of (some r) = r.sample_values

unfoldable pub example : Lang → List (Str × List Str) → Str → Option Str
example lang samples raw = elim (lookup raw samples) [
  | none ↦ none
  | some [] ↦ none
  | some (v ∷ vs) ↦ some (t lang (js "example") ((js "values", str (commas (v ∷ vs))) ∷ []))
]

pub record ReviewRow : Type 0 where
  pub raw_column : Str
  pub example : Option Str
  pub target_field : Str
  pub note : Option Str
  pub type : Str
  -- The boxes of the two last columns, which only a named column has.
  pub required : Option Bool
  pub dedup_key : Option Bool

abbrev when_named : Option Str → Bool → Option Bool
when_named name box = if truthy name then some box else none

unfoldable pub review_row : Lang → List (Str × List Str) → List Str → FieldResolution → ReviewRow
review_row lang samples keys e = record {
  raw_column = e.raw_column;
  example = example lang samples e.raw_column;
  target_field = or_else e.target_field [];
  note = field_name_error lang e.target_field;
  type = or_else e.type (js "string");
  required = when_named e.target_field (is_required e);
  dedup_key = when_named e.target_field (includes keys (or_else e.target_field []));
}

-- The choices of a type: value and label.
unfoldable pub type_options : Lang → List (Str × Str)
type_options lang = map (λ type. (type, type_label lang (some type))) field_types

-- The button that saves: its text, and whether it is disabled.
unfoldable pub save_button : Lang → Review → Str × Bool
save_button lang s = (
  text lang (if s.saving then js "saving" else js "save"),
  s.saving || has_invalid_field_name lang s,
)

-- What stands beside it.
unfoldable pub save_message : Lang → Review → Option Str
save_message lang s =
    if truthy s.save_error
    then s.save_error
    else if has_invalid_field_name lang s
    then some (text lang (js "fixFieldNames"))
    else none

pub record ReviewTable : Type 0 where
  pub rows : List ReviewRow
  pub save : Str × Bool
  pub message : Option Str

pub data ReviewContent : Type 0 where
  waits : Str → ReviewContent
  says : Str → ReviewContent
  edits : ReviewTable → ReviewContent

unfoldable pub review_content : Lang → Option IngestResult → Review → ReviewContent
review_content lang stored s =
    if s.loading
    then waits (text lang (js "loading"))
    else if truthy s.load_error
    then says (or_else s.load_error [])
    else edits (record {
      rows = map (review_row lang (samples_of stored) s.dedup_key_fields) s.resolutions;
      save = save_button lang s;
      message = save_message lang s;
    })
