-- ===== src/Pages/Uploads.antt =====
-- frontend/src/pages/IngestionRunsPage.tsx and frontend/src/lib/health.ts. `stamp` is
-- toLocaleString of a time.
use tidybridge.Base.{
  ℕ, Str, js, Bool, true, false, Option, none, some, List, [], ◌∷◌, ◌++◌, if◌then◌else◌, ◌==◌,
  length, map, truthy, or_else,
}
use tidybridge.I18n.{Lang, t}
use tidybridge.Types.{IngestionRun}
use tidybridge.Client.Errors.{Result, ok, fail, message_or}
use tidybridge.Client.Request.{Health}

pub record UploadsPage : Type 0 where
  pub runs : List IngestionRun
  pub loading : Bool
  pub error : Option Str
  pub alerts : List Str

abbrev pub uploads_init : UploadsPage
uploads_init = record { runs = []; loading = true; error = none; alerts = [] }

-- The effect, on the answer of listIngestionRuns.
unfoldable pub uploads_loaded : Lang → Result (List IngestionRun) → UploadsPage → UploadsPage
uploads_loaded lang (ok runs) s = record s { runs = runs; loading = false }
uploads_loaded lang (fail e) s = record s {
  error = some (message_or e (t lang (js "loadUploadsFailed") []));
  loading = false;
}

-- handleExport, on the end of exportRecords.
unfoldable pub export_answer : Lang → Result (Unit {0}) → UploadsPage → UploadsPage
export_answer lang (ok _) s = s
export_answer lang (fail e) s = record s { alerts = t lang (js "exportUploadFailed") [] ∷ s.alerts }

pub record UploadRow : Type 0 where
  pub source_file : Str
  pub created : Str
  pub counts : List ℕ
  pub link : Str

pub data UploadsShown : Type 0 where
  waits : UploadsShown
  says : Str → UploadsShown
  no_uploads : Str → Str → Str → UploadsShown
  lists : List UploadRow → UploadsShown

unfoldable pub upload_row : (Lang → Str → Str) → Lang → IngestionRun → UploadRow
upload_row stamp lang run = record {
  source_file = run.source_file;
  created = stamp lang run.created_at;
  counts =
      run.rows_total ∷ run.rows_clean ∷ run.rows_flagged ∷ run.rows_dropped_duplicates
      ∷ run.rows_skipped_existing ∷ [];
  link = js "/?ingestion_run_id=" ++ run.id;
}

unfoldable pub uploads_shown : (Lang → Str → Str) → Lang → UploadsPage → UploadsShown
uploads_shown stamp lang s =
    if s.loading
    then waits
    else if truthy s.error
    then says (or_else s.error [])
    else if length s.runs == 0
    then no_uploads (t lang (js "noUploadsYet") []) (t lang (js "uploadAFile") [])
        (t lang (js "toStart") [])
    else lists (map (upload_row stamp lang) s.runs)

-- OFF
unfoldable pub health_off : Health
health_off = record {
  status = js "unknown";
  extraction = false;
  webhooks = false;
  provisioning = false;
  github = false;
}

-- useHealth on the answer of getHealth; before it, health_off. An answer has all keys, so nothing of
-- OFF is left under it.
unfoldable pub health_answer : Result Health → Health
health_answer (ok h) = h
health_answer (fail e) = health_off
