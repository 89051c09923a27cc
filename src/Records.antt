-- ===== src/Records.antt =====
-- frontend/src/pages/RecordsPage.tsx: the page's state and what is derived from it. Its handlers
-- are in Records/Handlers.antt.
pub mod Handlers
pub mod Selection
pub mod Stats
pub mod Shown
pub mod Sort
pub mod Events
pub mod View
use tidybridge.Base.{
  ℕ, Str, js, str_eq, Bool, true, false, not, ◌&&◌, ◌||◌, Option, none, some, List, [], ◌∷◌, ◌++◌,
  if◌then◌else◌, ◌==◌, keep, any, length, map, trim, is_empty, lookup, includes, truthy, or_else,
  sort_by,
}
use tidybridge.Types.{ClientRecord, IngestionRun, IngestResult}
use tidybridge.FieldNames.{order_field_names}
use tidybridge.Client.Request.{contains}

pub data Status : Type 0 where
  clean needs_review approved : Status

pub data Filter : Type 0 where
  every : Filter
  only : Status → Filter

pub data Direction : Type 0 where
  asc desc : Direction

pub record SortState : Type 0 where
  pub key : Str
  pub direction : Direction

-- The names that the source gives to the statuses.
unfoldable pub status_name : Status → Str
unfolding js
status_name clean = js "Clean"
status_name needs_review = js "Needs review"
status_name approved = js "Approved"

abbrev pub status_eq : Status → Status → Bool
status_eq clean clean = true
status_eq needs_review needs_review = true
status_eq approved approved = true
status_eq _ _ = false

unfoldable pub status_label : ClientRecord → Status
status_label r =
    if not r.has_issues then clean else if truthy r.approved_at then approved else needs_review

-- The sign of a comparator's result.
pub data Sign : Type 0 where
  before same after : Sign

abbrev pub negate : Sign → Sign
negate before = after
negate same = same
negate after = before

-- What the page uses of JavaScript's Number and of Unicode: Number(text), `none` for NaN, on a
-- text that is not blank; the sign of a difference; localeCompare; toLowerCase.
pub record Runtime : Type 1 where
  pub Number : Type 0
  pub number : Str → Option Number
  pub compare_numbers : Number → Number → Sign
  pub locale_compare : Str → Str → Sign
  pub lower : Str → Str

-- The `fields[key]` of a record; a missing field and a null are one to the page (`== null`).
unfoldable pub field_value : ClientRecord → Str → Option Str
field_value r key = elim (lookup key r.fields) [ none ↦ none | some v ↦ v ]

unfoldable pub sort_value : ClientRecord → Str → Option Str
sort_value r key =
    if str_eq key (js "has_issues") then some (status_name (status_label r)) else field_value r key

module _ (rt : Runtime) where
  -- Number(value), for a value that is not blank; `none` else.
  unfoldable pub numeric : Str → Option (rt.Number)
  numeric v = if is_empty (trim v) then none else rt.number v

  unfoldable pub compare_numeric : Option (rt.Number) → Option (rt.Number) → Sign → Sign
  compare_numeric none b text = text
  compare_numeric (some x) none text = text
  compare_numeric (some x) (some y) text = rt.compare_numbers x y

  unfoldable pub compare_present : Direction → Str → Str → Sign
  unfolding compare_numeric
  compare_present direction a b =
      let cmp = compare_numeric (numeric a) (numeric b) (rt.locale_compare a b) in
      elim direction [ asc ↦ cmp | desc ↦ negate cmp ]

  unfoldable pub compare_values : Direction → Option Str → Option Str → Sign
  compare_values direction none none = same
  compare_values direction none (some b) = after
  compare_values direction (some a) none = before
  compare_values direction (some a) (some b) = compare_present direction a b

  unfoldable pub compare_records : SortState → ClientRecord → ClientRecord → Sign
  compare_records sort a b =
      compare_values sort.direction (sort_value a sort.key) (sort_value b sort.key)

pub record State : Type 0 where
  pub summary : Option (List Str)
  pub records : List ClientRecord
  pub runs : List IngestionRun
  pub filter : Filter
  pub search : Str
  pub sort : Option SortState
  pub loading : Bool
  pub error : Option Str
  pub uploading : Bool
  pub upload_error : Option Str
  pub last_result : Option IngestResult
  pub stored_result : Option IngestResult
  pub pending_delete : Option Str
  pub selected : List Str
  pub pending_bulk_delete : Bool
  pub bulk_deleting : Bool
  pub bulk_delete_error : Option Str
  pub exporting : Bool
  pub export_error : Option Str
  pub alerts : List Str

pub record StatCounts : Type 0 where
  pub total : ℕ
  pub clean : ℕ
  pub needs_review : ℕ
  pub approved : ℕ

abbrev pub count_status : Status → List ClientRecord → ℕ
count_status status records = length (keep (λ r. status_eq (status_label r) status) records)

unfoldable pub stats : List ClientRecord → StatCounts
stats records = record {
  total = length records;
  clean = count_status Status.clean records;
  needs_review = count_status Status.needs_review records;
  approved = count_status Status.approved records;
}

abbrev pub passes_filter : Filter → ClientRecord → Bool
passes_filter every r = true
passes_filter (only status) r = status_eq (status_label r) status

module _ (rt : Runtime) where
  abbrev pub value_matches : Str → Str × Option Str → Bool
  value_matches query (k, none) = false
  value_matches query (k, some v) = contains (rt.lower v) query

  unfoldable pub matches_query : Str → ClientRecord → Bool
  matches_query query r = is_empty query || any (value_matches query) r.fields

  unfoldable pub filtered_records : State → List ClientRecord
  filtered_records s =
      keep (λ r. passes_filter s.filter r && matches_query (rt.lower (trim s.search)) r) s.records

  -- compareRecords(a, b, sort) <= 0
  unfoldable pub not_after : SortState → ClientRecord → ClientRecord → Bool
  not_after sort a b = elim (compare_records rt sort a b) [ after ↦ false | _ ↦ true ]

  unfoldable pub sorted_records : State → List ClientRecord
  sorted_records s = elim s.sort [
    | none ↦ filtered_records s
    | some sort ↦ sort_by (not_after sort) (filtered_records s)
  ]

-- names.includes(k) ? names : [...names, k], over the keys of one record
unfoldable pub add_names : List Str → List (Str × Option Str) → List Str
add_names names [] = names
add_names names ((k, v) ∷ fields) =
    add_names (if includes names k then names else names ++ k ∷ []) fields

unfoldable pub all_names : List Str → List ClientRecord → List Str
all_names names [] = names
all_names names (r ∷ rs) = all_names (add_names names r.fields) rs

unfoldable pub field_names : List ClientRecord → List Str
field_names records = order_field_names (all_names [] records)
