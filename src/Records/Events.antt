-- ===== src/Records/Events.antt =====
-- RecordsPage.tsx as a state machine: whatever the user does and in whatever order the API's
-- answers come, one event at a time.
pub mod Consistent
use tidybridge.Base.{ℕ, Str, Bool, Option, List, [], ◌∷◌}
use tidybridge.I18n.{Lang}
use tidybridge.Types.{ClientRecord, IngestionRun, IngestResult}
use tidybridge.Client.Errors.{Result}
use tidybridge.Records.{State, Filter, Runtime}
use tidybridge.Records.Handlers.{
  show_summary, hide_summary, load_begin, load_end, load_runs_end, handle_sort, upload_begin,
  upload_answer, upload_end, export_begin, export_end, confirm_delete, delete_end, toggle_selected,
  toggle_select_all_visible, confirm_bulk_delete, bulk_delete_end, dismiss_result,
  dismiss_export_error, dismiss_bulk_delete_error, dismiss_upload_error,
}

pub data Event : Type 0 where
  summary_given : Option (List Str) → Event
  summary_hidden : Event
  load_started : Event
  load_answered : Result (List ClientRecord) → Event
  runs_answered : Result (List IngestionRun) → Event
  filter_chosen : Filter → Event
  search_typed : Str → Event
  header_clicked : Str → Event
  upload_started : Event
  upload_answered : Result IngestResult → Event
  upload_ended : Event
  export_started : Event
  export_answered : Result (Unit {0}) → Event
  delete_asked : Option Str → Event
  delete_confirmed : Event
  delete_answered : Str → Result (Unit {0}) → Event
  row_toggled : Str → Event
  rows_toggled : Event
  bulk_delete_asked : Bool → Event
  bulk_delete_confirmed : Event
  bulk_delete_answered : List Str → Result ℕ → Event
  result_dismissed export_error_dismissed bulk_delete_error_dismissed : Event
  upload_error_dismissed : Event

module _ (rt : Runtime) (lang : Lang) where
  unfoldable pub handle : Event → State → State
  handle (summary_given changes) s = show_summary changes s
  handle summary_hidden s = hide_summary s
  handle load_started s = load_begin s
  handle (load_answered r) s = load_end lang r s
  handle (runs_answered r) s = load_runs_end rt r s
  handle (filter_chosen filter) s = record s { filter = filter }
  handle (search_typed text) s = record s { search = text }
  handle (header_clicked key) s = handle_sort key s
  handle upload_started s = upload_begin s
  handle (upload_answered r) s = upload_answer lang r s
  handle upload_ended s = upload_end s
  handle export_started s = export_begin s
  handle (export_answered r) s = export_end lang r s
  handle (delete_asked id) s = record s { pending_delete = id }
  handle delete_confirmed s = (confirm_delete s).1
  handle (delete_answered id r) s = delete_end lang id r s
  handle (row_toggled id) s = toggle_selected id s
  handle rows_toggled s = toggle_select_all_visible rt s
  handle (bulk_delete_asked open_it) s = record s { pending_bulk_delete = open_it }
  handle bulk_delete_confirmed s = (confirm_bulk_delete s).1
  handle (bulk_delete_answered ids r) s = bulk_delete_end lang ids r s
  handle result_dismissed s = dismiss_result s
  handle export_error_dismissed s = dismiss_export_error s
  handle bulk_delete_error_dismissed s = dismiss_bulk_delete_error s
  handle upload_error_dismissed s = dismiss_upload_error s

  unfoldable pub run : List Event → State → State
  run [] s = s
  run (e ∷ es) s = run es (handle e s)
