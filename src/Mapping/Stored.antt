-- ===== src/Mapping/Stored.antt =====
-- ColumnMappingReviewPage.tsx: what a save does to the upload result kept in sessionStorage.
pub mod Renames
use tidybridge.Base.{
  ℕ, Str, js, str_eq, Bool, true, false, not, ◌&&◌, Option, none, some, List, [], ◌∷◌,
  if◌then◌else◌, map, truthy, or_else, lookup, insert, remove,
}
use tidybridge.Types.{ClientRecord, FieldResolution, ColumnMapping, IngestResult}
use tidybridge.Records.Handlers.{add_id}
use tidybridge.Mapping.Changes.{opt_eq}

abbrev pub Fields : Type 0
Fields = List (Str × Option Str)

-- new Map(old.map((e) => [e.raw_column, e.target_field]))
unfoldable pub targets_by_raw :
    List (Str × Option Str) → List FieldResolution → List (Str × Option Str)
targets_by_raw map [] = map
targets_by_raw map (e ∷ es) = targets_by_raw (insert e.raw_column e.target_field map) es

-- renameMap and dropFields.
pub record Plan : Type 0 where
  pub renames : List (Str × Str)
  pub drops : List Str

-- `if (oldT && oldT !== res.target_field)`
unfoldable pub plan_target : Option Str → Option Str → Plan → Plan
plan_target none target plan = plan
plan_target (some old) none plan =
    if truthy (some old) then record plan { drops = add_id old plan.drops } else plan
plan_target (some old) (some new) plan =
    if truthy (some old) && not (str_eq old new)
    then record plan { renames = insert old new plan.renames }
    else plan

unfoldable pub make_plan : List (Str × Option Str) → List FieldResolution → Plan → Plan
make_plan old [] plan = plan
make_plan old (e ∷ es) plan =
    make_plan old es (plan_target (or_else (lookup e.raw_column old) none) e.target_field plan)

-- if (oldK in updated) { updated[newK] = updated[oldK]; delete updated[oldK]; }
unfoldable pub rename_field : Str → Str → Fields → Fields
rename_field old new fields = elim (lookup old fields) [
  | none ↦ fields
  | some v ↦ remove old (insert new v fields)
]

unfoldable pub rename_fields : List (Str × Str) → Fields → Fields
rename_fields [] fields = fields
rename_fields ((old, new) ∷ renames) fields = rename_fields renames (rename_field old new fields)

unfoldable pub drop_fields : List Str → Fields → Fields
drop_fields [] fields = fields
drop_fields (k ∷ drops) fields = drop_fields drops (remove k fields)

unfoldable pub update_fields : Plan → Fields → Fields
update_fields plan fields = drop_fields plan.drops (rename_fields plan.renames fields)

unfoldable pub update_result :
    List FieldResolution → List FieldResolution → List Str → IngestResult → IngestResult
update_result old new keys stored =
    let plan = make_plan (targets_by_raw [] old) new (record { renames = []; drops = [] }) in
    record stored {
      records =
          map (λ (r : ClientRecord). record r { fields = update_fields plan r.fields })
            stored.records;
      field_resolutions = new;
      dedup_key_fields = keys;
      mapping_is_default = false;
    }

-- Only the result of the reviewed shape is touched.
unfoldable pub update_stored :
    Str
    → List FieldResolution
    → List FieldResolution
    → List Str
    → Option IngestResult
    → Option IngestResult
update_stored fingerprint old new keys none = none
update_stored fingerprint old new keys (some stored) =
    if str_eq stored.fingerprint fingerprint
    then some (update_result old new keys stored)
    else some stored
