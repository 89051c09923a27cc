-- ===== src/Records/Events/Consistent.antt =====
-- RecordsPage.tsx: the selection stays within the records, up to the next load.
use tidybridge.Base.{
  All-keep, ℕ, Str, str_eq, str_eq_iff, str_eq_refl, Bool, true, false, not, ◌&&◌, ◌≡◌, inl, inr,
  none, some, List, [], ◌∷◌, arith, keep, includes, Bool-cases, Option-cases, All, sort_by-All,
  All-map_imp,
}
use tidybridge.I18n.{Lang}
use tidybridge.Types.{ClientRecord}
use tidybridge.Client.Errors.{Result, ok, fail}
use tidybridge.Records.{State, Runtime, sorted_records, filtered_records, not_after}
use tidybridge.Records.Handlers.{
  toggle_selected, toggle_select_all_visible, confirm_bulk_delete, bulk_delete_end, delete_end,
  load_end, upload_answer, load_begin, show_summary, hide_summary, load_runs_end, handle_sort,
  upload_begin, upload_end, export_begin, export_end, confirm_delete, dismiss_result,
  dismiss_export_error, dismiss_bulk_delete_error, dismiss_upload_error,
}
use tidybridge.Records.Selection.{
  row_ids, includes-drop_id, includes-toggle_id, includes-toggle_select_all_visible,
}
use tidybridge.Records.Events.{Event, handle, run}

-- Every selected id is that of a record of the page.
abbrev pub IsConsistent : State → Type 0
IsConsistent s = (j : Str) → includes s.selected j ≡ true → includes (row_ids s.records) j ≡ true

includes-row_ids-keep :
    (test : Str → Bool) (rows : List ClientRecord) (j : Str)
    → includes (row_ids (keep (λ (r : ClientRecord). test r.id) rows)) j
      ≡ (test j && includes (row_ids rows) j)
unfolding includes
includes-row_ids-keep test [] j = ground arith
includes-row_ids-keep test (r ∷ rows) j =
    ground (arith, includes-row_ids-keep test rows j, str_eq_iff r.id j)

rows_listed :
    (rows : List ClientRecord)
    → All (λ (r : ClientRecord). includes (row_ids rows) r.id ≡ true) rows
unfolding includes
rows_listed [] = tt
rows_listed (r ∷ rows) = (
  rw (str_eq_refl r.id),
  All-map_imp (λ (q : ClientRecord). includes (row_ids rows) q.id ≡ true) _ rows
      (λ q h. ground arith) (rows_listed rows),
)

sorted_records_listed :
    (rt : Runtime) (s : State)
    → All (λ (r : ClientRecord). includes (row_ids s.records) r.id ≡ true) (sorted_records rt s)
unfolding sorted_records filtered_records
sorted_records_listed rt s =
    let filtered =
      All-keep (λ (r : ClientRecord). includes (row_ids s.records) r.id ≡ true) _ s.records
        (rows_listed s.records) in
    elim (Option-cases s.sort) [
      | inl unsorted ↦ rw unsorted filtered
      | inr (sort, sorted) ↦ rw sorted (sort_by-All (not_after rt sort) _ _ filtered)
    ]

listed_of_row :
    (records rows : List ClientRecord) (j : Str)
    → All (λ (r : ClientRecord). includes (row_ids records) r.id ≡ true) rows
    → includes (row_ids rows) j ≡ true
    → includes (row_ids records) j ≡ true
unfolding includes
listed_of_row records [] j h e = cc
listed_of_row records (r ∷ rows) j (p, h) e = elim (Bool-cases (str_eq r.id j)) [
  | inl same ↦ rw ((str_eq_iff r.id j).0 same) at p
  | inr other ↦ listed_of_row records rows j h (ground arith)
]

-- What an event needs to keep the selection within the records: a row is one of the page's, and a
-- load brings every selected record again.
abbrev pub Keeps : Event → State → Type 0
Keeps (Event.row_toggled id) s = includes (row_ids s.records) id ≡ true
Keeps (Event.load_answered (ok records)) s =
    (j : Str) → includes s.selected j ≡ true → includes (row_ids records) j ≡ true
Keeps _ s = Unit

module _ (rt : Runtime) (lang : Lang) where
  toggled :
      (id : Str) (s : State)
      → includes (row_ids s.records) id ≡ true
      → IsConsistent s
      → IsConsistent (toggle_selected id s)
  unfolding toggle_selected
  toggled id s listed c j h =
      ground (arith, includes-toggle_id s.selected id j, c j, str_eq_iff id j)

  all_toggled : (s : State) → IsConsistent s → IsConsistent (toggle_select_all_visible rt s)
  unfolding toggle_select_all_visible
  all_toggled s c j h = ground (
    arith,
    c j,
    includes-toggle_select_all_visible rt s j,
    listed_of_row s.records (sorted_records rt s) j (sorted_records_listed rt s),
  )

  deleted :
      (id : Str) (r : Result (Unit {0})) (s : State)
      → IsConsistent s
      → IsConsistent (delete_end lang id r s)
  unfolding delete_end
  deleted id (ok _) s c j h = ground (
    arith,
    c j,
    includes-drop_id s.selected id j,
    includes-row_ids-keep (λ k. not (str_eq k id)) s.records j,
    str_eq_iff id j,
    str_eq_iff j id,
  )
  deleted id (fail e) s c j h = c j h

  bulk_deleted :
      (ids : List Str) (r : Result ℕ) (s : State)
      → IsConsistent s
      → IsConsistent (bulk_delete_end lang ids r s)
  unfolding bulk_delete_end includes
  bulk_deleted ids (ok _) s c j h = cc
  bulk_deleted ids (fail e) s c j h = c j h

  confirmed : (s : State) → IsConsistent s → IsConsistent (confirm_delete s).1
  unfolding confirm_delete
  confirmed s c j h = ground (arith, c j)

  -- One event keeps the selection within the records.
  handle-IsConsistent :
      (e : Event) (s : State) → Keeps e s → IsConsistent s → IsConsistent (handle rt lang e s)
  unfolding handle show_summary hide_summary load_begin load_end load_runs_end handle_sort
      upload_begin upload_answer upload_end export_begin export_end confirm_bulk_delete
      dismiss_result dismiss_export_error dismiss_bulk_delete_error dismiss_upload_error
  handle-IsConsistent (Event.row_toggled id) s k c = toggled id s k c
  handle-IsConsistent Event.rows_toggled s k c = all_toggled s c
  handle-IsConsistent (Event.delete_answered id r) s k c = deleted id r s c
  handle-IsConsistent (Event.bulk_delete_answered ids r) s k c = bulk_deleted ids r s c
  handle-IsConsistent Event.delete_confirmed s k c = confirmed s c
  handle-IsConsistent (Event.load_answered (ok records)) s k c = k
  handle-IsConsistent (Event.load_answered (fail e)) s k c = c
  handle-IsConsistent (Event.summary_given none) s k c = c
  handle-IsConsistent (Event.summary_given (some changes)) s k c = c
  handle-IsConsistent (Event.runs_answered (ok runs)) s k c = c
  handle-IsConsistent (Event.runs_answered (fail e)) s k c = c
  handle-IsConsistent (Event.upload_answered (ok result)) s k c = c
  handle-IsConsistent (Event.upload_answered (fail e)) s k c = c
  handle-IsConsistent (Event.export_answered (ok _)) s k c = c
  handle-IsConsistent (Event.export_answered (fail e)) s k c = c
  handle-IsConsistent _ s k c = c

  -- Along a run, each event finds the state that the ones before it left.
  abbrev pub KeepsAll : List Event → State → Type 0
  KeepsAll [] s = Unit
  KeepsAll (e ∷ es) s = Keeps e s × KeepsAll es (handle rt lang e s)

  -- Whatever the order of clicks and answers, the selection holds ids of listed records only,
  -- as long as it did at the start, rows are toggled on listed records and a load brings every
  -- selected record again.
  pub run-IsConsistent :
      (es : List Event) (s : State)
      → KeepsAll es s
      → IsConsistent s
      → IsConsistent (run rt lang es s)
  unfolding run
  run-IsConsistent [] s k c = c
  run-IsConsistent (e ∷ es) s (k, ks) c =
      run-IsConsistent es (handle rt lang e s) ks (handle-IsConsistent e s k c)

-- A load may bring a list without a selected record, as after a change of the upload filter: the
-- selection keeps its id, and the deletion that is confirmed then sends it.
pub bulk_delete_unlisted :
    (lang : Lang) (s : State) (records : List ClientRecord) (id : Str)
    → includes s.selected id ≡ true
    → includes (row_ids records) id ≡ false
    → (includes (row_ids (load_end lang (ok records) s).records) id ≡ false)
      × (includes (confirm_bulk_delete (load_end lang (ok records) s)).0 id ≡ true)
unfolding load_end confirm_bulk_delete
bulk_delete_unlisted lang s records id selected unlisted = (unlisted, selected)
