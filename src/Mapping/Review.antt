-- ===== src/Mapping/Review.antt =====
-- ColumnMappingReviewPage.tsx: the page's state, its load, its edits and its save. The load and
-- the save are in two parts, before the API's answer and on it.
pub mod Laws
use tidybridge.Base.{
  ℕ, zero, suc, Str, js, str_eq, Bool, true, false, not, ◌&&◌, Option, none, some, List, [], ◌∷◌,
  ◌++◌, if◌then◌else◌, ◌==◌, any, is_empty, or_else, includes,
}
use tidybridge.I18n.{Lang, t}
use tidybridge.Types.{FieldResolution, ColumnMapping, ColumnMappingIn, IngestResult}
use tidybridge.Client.Errors.{Result, ok, fail, Failure, api_error, other_error, message_or}
use tidybridge.Records.Handlers.{add_id, drop_id}
use tidybridge.Mapping.Changes.{field_name_error, is_required, summarize_changes}
use tidybridge.Mapping.Stored.{update_stored}

-- The component's props.
pub record Props : Type 0 where
  pub fingerprint : Str
  pub initial_resolution : Option ColumnMapping
  pub ingestion_run_id : Option Str

pub record Review : Type 0 where
  pub resolutions : List FieldResolution
  pub dedup_key_fields : List Str
  pub loading : Bool
  pub load_error : Option Str
  pub saving : Bool
  pub save_error : Option Str

-- The stored upload result, if it is of this shape.
unfoldable pub stored_result : Str → Option IngestResult → Option IngestResult
stored_result fingerprint none = none
stored_result fingerprint (some r) = if str_eq r.fingerprint fingerprint then some r else none

abbrev mapping_of : Option IngestResult → Option ColumnMapping
mapping_of none = none
mapping_of (some r) =
    some (record { field_resolutions = r.field_resolutions; dedup_key_fields = r.dedup_key_fields })

-- initialResolution ?? (storedResult ? … : undefined)
unfoldable pub effective_initial : Props → Option IngestResult → Option ColumnMapping
effective_initial props stored = elim props.initial_resolution [
  | none ↦ mapping_of (stored_result props.fingerprint stored)
  | some m ↦ some m
]

abbrev run_of : Option IngestResult → Option Str
run_of none = none
run_of (some r) = some r.ingestion_run_id

unfoldable pub effective_run_id : Props → Option IngestResult → Option Str
effective_run_id props stored = elim props.ingestion_run_id [
  | none ↦ run_of (stored_result props.fingerprint stored)
  | some id ↦ some id
]

abbrev pub is_some : Option Str → Bool
is_some none = false
is_some (some s) = true

unfoldable pub has_invalid_field_name : Lang → Review → Bool
has_invalid_field_name lang s =
    any (λ (e : FieldResolution). is_some (field_name_error lang e.target_field)) s.resolutions

unfoldable pub load_begin : Review → Review
load_begin s = record s { loading = true; load_error = none }

abbrev adopt : ColumnMapping → Review → Review
adopt m s = record s {
  resolutions = m.field_resolutions;
  dedup_key_fields = m.dedup_key_fields;
  loading = false;
}

-- err instanceof ApiError && err.status === 404
unfoldable pub is_not_found : Failure → Bool
is_not_found (api_error e) = e.status == 404
is_not_found other_error = false

unfoldable pub load_failed : Lang → Option ColumnMapping → Bool → Review → Review
load_failed lang (some m) true s = adopt m s
load_failed lang none true s = record s {
  load_error = some (t lang (js "mappingNothingYet") []);
  loading = false;
}
load_failed lang initial false s = record s {
  load_error = some (t lang (js "mappingLoadFailed") []);
  loading = false;
}

unfoldable pub load_end : Lang → Option ColumnMapping → Result ColumnMapping → Review → Review
load_end lang initial (ok m) s = adopt m s
load_end lang initial (fail e) s = load_failed lang initial (is_not_found e) s

-- prev.map((entry, i) => i === index ? change(entry) : entry)
unfoldable pub update_at :
    ℕ → (FieldResolution → FieldResolution) → List FieldResolution → List FieldResolution
update_at i change [] = []
update_at zero change (e ∷ es) = change e ∷ es
update_at (suc i) change (e ∷ es) = e ∷ update_at i change es

unfoldable pub update_target_field : ℕ → Str → Review → Review
update_target_field i value s = record s {
  resolutions =
      update_at i (λ e. record e { target_field = if is_empty value then none else some value })
        s.resolutions;
}

unfoldable pub update_type : ℕ → Str → Review → Review
update_type i value s = record s {
  resolutions = update_at i (λ e. record e { type = some value }) s.resolutions;
}

unfoldable pub toggle_required : ℕ → Review → Review
toggle_required i s = record s {
  resolutions = update_at i (λ e. record e { required = some (not (is_required e)) }) s.resolutions;
}

unfoldable pub toggle_dedup_key : Str → Review → Review
toggle_dedup_key field s = record s {
  dedup_key_fields =
      if includes s.dedup_key_fields field
      then drop_id field s.dedup_key_fields
      else s.dedup_key_fields ++ field ∷ [];
}

abbrev resolutions_of : Option ColumnMapping → Option (List FieldResolution)
resolutions_of none = none
resolutions_of (some m) = some m.field_resolutions

abbrev keys_of : Option ColumnMapping → Option (List Str)
keys_of none = none
keys_of (some m) = some m.dedup_key_fields

-- handleSave up to the call: what is sent.
unfoldable pub save_begin : Props → Option IngestResult → Review → ColumnMappingIn × Review
save_begin props stored s = (
  record {
    field_resolutions = s.resolutions;
    dedup_key_fields = s.dedup_key_fields;
    apply_to_run_id = effective_run_id props stored;
    old_resolutions = resolutions_of (effective_initial props stored);
  },
  record s { saving = true; save_error = none },
)

-- What the save leaves: the page, sessionStorage, and the change summary that the browser goes
-- back to the records page with, if it does. `sent` is what was sent, `initial` and `now` are the
-- initial mapping and the stored result at the time. What the API answers with is not looked at.
pub record Saved : Type 0 where
  pub review : Review
  pub stored : Option IngestResult
  pub summary : Option (List Str)

unfoldable pub save_end :
    {T : Type 0}
    → Lang
    → Str
    → Option ColumnMapping
    → ColumnMappingIn
    → Result T
    → Option IngestResult
    → Review
    → Saved
save_end lang fingerprint initial sent (ok _) now s = record {
  review = record s { saving = false };
  stored =
      update_stored fingerprint (or_else (resolutions_of initial) []) sent.field_resolutions
        sent.dedup_key_fields now;
  summary = some (
      summarize_changes lang (or_else (resolutions_of initial) []) sent.field_resolutions
        (or_else (keys_of initial) []) sent.dedup_key_fields);
}
save_end lang fingerprint initial sent (fail e) now s = record {
  review = record s {
    save_error = some (message_or e (t lang (js "mappingSaveFailed") []));
    saving = false;
  };
  stored = now;
  summary = none;
}
