-- ===== src/Tests/Mapping.antt =====
-- ColumnMappingReviewPage.tsx at concrete inputs.
use tidybridge.Base.{
  str_eq_iff, All, arith, ◌≡◌, ◌≢◌, refl, ◌↔◌, ◌⊎◌, Str, js, str_eq, lookup, true, false, none,
  some, List, [], ◌∷◌, drop,
}
use tidybridge.I18n.{spanish}
use tidybridge.Types.{FieldResolution, ColumnMapping, ColumnMappingIn, IngestResult}
use tidybridge.Client.Errors.{Failure, Result, ok, fail, api_error}
use tidybridge.Mapping.Changes.{by_raw, summarize_changes}
use tidybridge.Mapping.Changes.Laws.{AllUnchanged, IsSameSet, summarize_changes-eq-nil_iff}
use tidybridge.Mapping.Stored.{Fields, rename_fields}
use tidybridge.Mapping.Stored.Renames.{renamed, lookup-rename_fields}
use tidybridge.Mapping.Review.{Props, Review, effective_initial, load_end, save_end}
use tidybridge.Mapping.View.{save_button}
use tidybridge.Mapping.View.Laws.{IsNamed, save_button_enabled_iff}
use tidybridge.Auth.{App, init}
use tidybridge.Routes.{Route, column_mapping}
use tidybridge.Tests.Samples.{signed_in, someone}
use tidybridge.Mapping.Review.Laws.{
  LeadsTo, load_end_cases, save_end-effective_initial, IsUnshown, Adopts, Says,
}

abbrev cells : Fields
cells = (js "name", some (js "Ana")) ∷ (js "city", some (js "Vigo")) ∷ []

abbrev free_renames : List (Str × Str)
free_renames = (js "name", js "full_name") ∷ (js "city", js "town") ∷ []

lookup-rename_fields_example :
    lookup (js "town") (rename_fields free_renames cells) ≡ renamed free_renames cells (js "town")
unfolding lookup str_eq js
lookup-rename_fields_example =
    lookup-rename_fields free_renames cells (js "town")
      (refl, refl, ((refl, refl, refl, refl), tt), (refl, refl, tt, tt))

name-is_not-city : str_eq (js "name") (js "city") ≡ false
unfolding str_eq js
name-is_not-city = refl

name-ne-city : js "name" ≢ js "city"
name-ne-city h = ground (arith, name-is_not-city, str_eq_iff (js "name") (js "city"))

abbrev column : Str → Str → FieldResolution
column raw target = record {
  raw_column = raw;
  target_field = some target;
  type = none;
  required = none;
}

abbrev old : List FieldResolution
old = column (js "Nombre") (js "full_name") ∷ []

abbrev new : List FieldResolution
new = column (js "Nombre") (js "name") ∷ []

summarize_changes-eq-nil_iff_example :
    (summarize_changes spanish old new (js "full_name" ∷ []) (js "name" ∷ []) ≡ [])
    ↔ (AllUnchanged (by_raw [] old) new × IsSameSet (js "full_name" ∷ []) (js "name" ∷ []))
summarize_changes-eq-nil_iff_example =
    summarize_changes-eq-nil_iff spanish old new (js "full_name" ∷ []) (js "name" ∷ [])

abbrev empty_review : Review
empty_review = record {
  resolutions = [];
  dedup_key_fields = [];
  loading = true;
  load_error = none;
  saving = false;
  save_error = none;
}

abbrev proposed : ColumnMapping
proposed = record { field_resolutions = old; dedup_key_fields = js "full_name" ∷ [] }

abbrev not_saved : Result ColumnMapping
not_saved = fail (api_error (record { status = 404; message = js "Not found"; code = none }))

abbrev loaded : Review
loaded = load_end spanish (some proposed) not_saved empty_review

load_end_cases_example :
    (loaded.loading ≡ false)
    × (((m : ColumnMapping) × LeadsTo not_saved (some proposed) m × Adopts m empty_review loaded)
        ⊎ ((message : Str) × IsUnshown spanish not_saved (some proposed) message
            × Says message empty_review loaded))
load_end_cases_example = load_end_cases spanish (some proposed) not_saved empty_review

abbrev uploaded : IngestResult
uploaded = record {
  ingestion_run_id = js "run-1";
  rows_total = 3;
  rows_clean = 2;
  rows_flagged = 1;
  rows_dropped_duplicates = 0;
  rows_skipped_existing = 0;
  mapping_is_default = true;
  fingerprint = js "nombre|ciudad";
  field_resolutions = old;
  dedup_key_fields = js "full_name" ∷ [];
  records = [];
  sample_values = [];
}

abbrev props : Props
props = record {
  fingerprint = js "nombre|ciudad";
  initial_resolution = none;
  ingestion_run_id = none;
}

abbrev sent : ColumnMappingIn
sent = record {
  field_resolutions = new;
  dedup_key_fields = js "name" ∷ [];
  apply_to_run_id = some (js "run-1");
  old_resolutions = some old;
}

save_end-effective_initial_example :
    (effective_initial props
        (save_end spanish props.fingerprint
          (effective_initial props (some uploaded))
          sent
          (ok proposed)
          (some uploaded)
          empty_review).stored
      ≡ some (record { field_resolutions = new; dedup_key_fields = js "name" ∷ [] }))
    × ((r : IngestResult) × ((save_end spanish props.fingerprint
            (effective_initial props (some uploaded))
            sent
            (ok proposed)
            (some uploaded)
            empty_review).stored
          ≡ some r)
        × (r.mapping_is_default ≡ false)
        × (r.ingestion_run_id ≡ js "run-1"))
unfolding str_eq js
save_end-effective_initial_example =
    save_end-effective_initial spanish props sent proposed uploaded empty_review refl refl

abbrev not_found : Failure
not_found = api_error (record { status = 404; message = js "No mapping"; code = none })

-- A router that knows one entry, and reads what stands behind its prefix.
abbrev to_review : Str → Route
to_review path = column_mapping (some (drop 17 path))

abbrev inside : App (Unit {0})
inside = record (init signed_in) { user = some someone; loading = false }

abbrev reviewed : Review
reviewed = record empty_review { resolutions = new; loading = false }

save_button_enabled_iff_example :
    ((save_button spanish reviewed).1 ≡ false) ↔ ((false ≡ false) × All IsNamed new)
save_button_enabled_iff_example = save_button_enabled_iff spanish reviewed
