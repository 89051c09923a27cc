-- ===== src/Records/Handlers.antt =====
-- frontend/src/pages/RecordsPage.tsx: the handlers. One that awaits the API is in two parts: what
-- it does before the call, and, for any state the page is in by then, what it does with the answer.
use tidybridge.Base.{
  ℕ, Str, js, str_eq, Bool, true, false, not, Option, none, some, List, [], ◌∷◌, ◌++◌,
  if◌then◌else◌, keep, all, map, includes, sort_by, truthy,
}
use tidybridge.I18n.{Lang, t}
use tidybridge.Types.{ClientRecord, IngestionRun, IngestResult}
use tidybridge.Client.Errors.{Result, ok, fail, message_or}
use tidybridge.Records.{State, SortState, Direction, asc, desc, after, Runtime, sorted_records}

-- setMappingSaveSummary(…), by the router's state and by the timer.
unfoldable pub show_summary : Option (List Str) → State → State
show_summary summary s = elim summary [
  | none ↦ s
  | some changes ↦ record s { summary = some changes }
]

unfoldable pub hide_summary : State → State
hide_summary s = record s { summary = none }

-- load()
unfoldable pub load_begin : State → State
load_begin s = record s { loading = true; error = none }

unfoldable pub load_end : Lang → Result (List ClientRecord) → State → State
load_end lang (ok records) s = record s { records = records; loading = false }
load_end lang (fail e) s = record s {
  error = some (message_or e (t lang (js "err_generic") []));
  loading = false;
}

-- b.created_at.localeCompare(a.created_at) <= 0
abbrev newer : Runtime → IngestionRun → IngestionRun → Bool
newer rt a b = elim (rt.locale_compare b.created_at a.created_at) [ after ↦ false | _ ↦ true ]

-- loadRuns()
unfoldable pub load_runs_end : Runtime → Result (List IngestionRun) → State → State
load_runs_end rt (ok runs) s = record s { runs = sort_by (newer rt) runs }
load_runs_end rt (fail e) s = record s { runs = [] }

abbrev flip : Direction → Direction
flip asc = desc
flip desc = asc

unfoldable pub next_sort : Str → Option SortState → SortState
next_sort key none = record { key = key; direction = asc }
next_sort key (some prev) =
    if str_eq prev.key key
    then record { key = key; direction = flip prev.direction }
    else record { key = key; direction = asc }

unfoldable pub handle_sort : Str → State → State
unfolding next_sort
handle_sort key s = record s { sort = some (next_sort key s.sort) }

-- handleFileChange, up to the upload.
unfoldable pub upload_begin : State → State
upload_begin s = record s {
  uploading = true;
  upload_error = none;
  last_result = none;
  stored_result = none;
}

-- The upload's answer. On success load() and loadRuns() begin, and `uploading` stays until both
-- are done.
unfoldable pub upload_answer : Lang → Result IngestResult → State → State
unfolding load_begin
upload_answer lang (ok result) s =
    load_begin (record s { last_result = some result; stored_result = some result })
upload_answer lang (fail e) s = record s {
  upload_error = some (message_or e (t lang (js "uploadFailed") []));
  uploading = false;
}

unfoldable pub upload_end : State → State
upload_end s = record s { uploading = false }

unfoldable pub export_begin : State → State
export_begin s = record s { exporting = true; export_error = none }

unfoldable pub export_end : Lang → Result (Unit {0}) → State → State
export_end lang (ok _) s = record s { exporting = false }
export_end lang (fail e) s = record s {
  export_error = some (message_or e (t lang (js "exportFailed") []));
  exporting = false;
}

-- A Set of ids, in insertion order: has, add, delete.
abbrev pub add_id : Str → List Str → List Str
add_id id ids = if includes ids id then ids else ids ++ id ∷ []

abbrev pub drop_id : Str → List Str → List Str
drop_id id ids = keep (λ j. not (str_eq j id)) ids

-- confirmDelete, up to the call: the id to delete, if one was pending.
unfoldable pub confirm_delete : State → Option Str × State
confirm_delete s =
    if truthy s.pending_delete
    then (s.pending_delete, record s { pending_delete = none })
    else (none, s)

unfoldable pub delete_end : Lang → Str → Result (Unit {0}) → State → State
delete_end lang id (ok _) s = record s {
  records = keep (λ (r : ClientRecord). not (str_eq r.id id)) s.records;
  selected = drop_id id s.selected;
}
delete_end lang id (fail e) s = record s {
  alerts = message_or e (t lang (js "deleteRecordFailed") []) ∷ s.alerts;
}

unfoldable pub toggle_id : Str → List Str → List Str
toggle_id id ids = if includes ids id then drop_id id ids else add_id id ids

unfoldable pub toggle_selected : Str → State → State
unfolding toggle_id
toggle_selected id s = record s { selected = toggle_id id s.selected }

-- for (const id of visibleIds) …
unfoldable pub select_all : List Str → List Str → List Str
select_all [] ids = ids
select_all (id ∷ visible) ids = select_all visible (add_id id ids)

unfoldable pub deselect_all : List Str → List Str → List Str
deselect_all [] ids = ids
deselect_all (id ∷ visible) ids = deselect_all visible (drop_id id ids)

unfoldable pub toggle_visible : List Str → List Str → List Str
toggle_visible visible ids =
    if all (includes ids) visible then deselect_all visible ids else select_all visible ids

unfoldable pub toggle_select_all_visible : Runtime → State → State
unfolding toggle_visible
toggle_select_all_visible rt s = record s {
  selected = toggle_visible (map (λ (r : ClientRecord). r.id) (sorted_records rt s)) s.selected;
}

-- confirmBulkDelete, up to the call: the ids that are sent.
unfoldable pub confirm_bulk_delete : State → List Str × State
confirm_bulk_delete s = (
  s.selected,
  record s { pending_bulk_delete = false; bulk_deleting = true; bulk_delete_error = none },
)

unfoldable pub bulk_delete_end : Lang → List Str → Result ℕ → State → State
bulk_delete_end lang ids (ok _) s = record s {
  records = keep (λ (r : ClientRecord). not (includes ids r.id)) s.records;
  selected = [];
  bulk_deleting = false;
}
bulk_delete_end lang ids (fail e) s = record s {
  bulk_delete_error = some (message_or e (t lang (js "deleteRecordsFailed") []));
  bulk_deleting = false;
}

-- The crosses of the result's box and of the three banners.
unfoldable pub dismiss_result : State → State
dismiss_result s = record s { last_result = none; stored_result = none }

unfoldable pub dismiss_export_error : State → State
dismiss_export_error s = record s { export_error = none }

unfoldable pub dismiss_bulk_delete_error : State → State
dismiss_bulk_delete_error s = record s { bulk_delete_error = none }

unfoldable pub dismiss_upload_error : State → State
dismiss_upload_error s = record s { upload_error = none }
