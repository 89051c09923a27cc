-- ===== src/Tests/Records.antt =====
-- RecordsPage.tsx and UploadPicker.tsx at concrete inputs.
use tidybridge.Base.{
  ℕ, ◌≤◌, ◌<◌, ◌≡◌, ◌≢◌, refl, Str, js, str_eq, includes, lookup, true, false, not, ◌&&◌, Option,
  none, some, List, [], ◌∷◌, arith, length, all, All, IsSorted, trim, if◌then◌else◌, leb, ◌⊎◌, ◌==◌,
  ◌↔◌,
}
use Prim.Native.Nat.{compare, Ordering}
use mathlib.Core.List.{Mem}
use tidybridge.Types.{ClientRecord, IngestionRun}
use tidybridge.I18n.{spanish}
use tidybridge.Records.{
  stats, approved, Runtime, Sign, before, same, after, State, needs_review, only, SortState, asc,
  sorted_records, sort_value, field_value, numeric, not_after, status_label,
}
use tidybridge.Records.Handlers.{load_begin, toggle_select_all_visible}
use tidybridge.Records.Events.{Event, handle, run}
use tidybridge.Records.Events.Consistent.{IsConsistent, KeepsAll, run-IsConsistent}
use tidybridge.Records.Selection.{row_ids}
use tidybridge.Records.View.{select_all_checked}
use tidybridge.Records.View.Laws.{
  select_all_checked-toggle_select_all_visible, length-sorted_records_card,
}
use tidybridge.Records.Shown.{HasText, Mem-sorted_records_iff}
use tidybridge.Records.Sort.{IsLawful, IsOfKind, sorted_records-IsSorted}
use tidybridge.UploadPicker.{enter, Picker, arrow_down, picker_options}
use tidybridge.UploadPicker.Mouse.{
  Act, presses, points_at, clicks_option, clicks_button, use_picker,
}
use tidybridge.UploadPicker.Mouse.Use.{IsChoice, use_picker-active}
use tidybridge.Tests.Samples.{ana, eva, three, luis}

-- A runtime whose numbers are the lengths of runs of ticks, and whose locale tells texts apart by
-- their length.
abbrev by_size : ℕ → ℕ → Sign
by_size x y = elim (compare x y) [ Ordering.lt ↦ before | Ordering.eq ↦ same | Ordering.gt ↦ after ]

abbrev counted : Str → Option ℕ
counted s = if all (λ c. leb c 57) s then some (length s) else none

abbrev rt : Runtime
rt = record {
  Number = ℕ;
  number = counted;
  compare_numbers = by_size;
  locale_compare = λ a b. by_size (length a) (length b);
  lower = λ s. s;
}

lawful : IsLawful rt
lawful = record {
  numbers_negate = λ x y. ground arith;
  numbers_trans = λ x y z h k. ground arith;
  locale_negate = λ a b. ground arith;
  locale_trans = λ a b c h k. ground arith;
}

abbrev by_amount : SortState
by_amount = record { key = js "amount"; direction = asc }

abbrev page : State
page = record {
  summary = none;
  records = three;
  runs = [];
  filter = only needs_review;
  search = [];
  sort = some by_amount;
  loading = false;
  error = none;
  uploading = false;
  upload_error = none;
  last_result = none;
  stored_result = none;
  pending_delete = none;
  selected = [];
  pending_bulk_delete = false;
  bulk_deleting = false;
  bulk_delete_error = none;
  exporting = false;
  export_error = none;
  alerts = [];
}

none_selected : IsConsistent page
unfolding includes
none_selected j h = cc

abbrev clicks : List Event
clicks = Event.load_started ∷ Event.row_toggled (js "r2") ∷ Event.rows_toggled ∷ []

clicks_keep : KeepsAll rt spanish clicks page
unfolding handle load_begin includes str_eq js
clicks_keep = (tt, (refl, (tt, tt)))

run-IsConsistent_example : IsConsistent (run rt spanish clicks page)
run-IsConsistent_example = run-IsConsistent rt spanish clicks page clicks_keep none_selected

select_all_checked-toggle_select_all_visible_example :
    (select_all_checked rt (toggle_select_all_visible rt page)
      ≡ (not (length (sorted_records rt page) == 0) && not (select_all_checked rt page)))
    × ((includes (row_ids (sorted_records rt page)) (js "r1") ≡ true)
        ⊎ (includes (toggle_select_all_visible rt page).selected (js "r1")
            ≡ includes page.selected (js "r1")))
select_all_checked-toggle_select_all_visible_example =
    select_all_checked-toggle_select_all_visible rt page (js "r1")

length-sorted_records_card_example :
    length (sorted_records rt (record page { filter = only approved })) ≡ (stats three).approved
unfolding trim
length-sorted_records_card_example = length-sorted_records_card rt page (only approved) refl

abbrev searching : State
searching = record page { search = js " ui " }

Mem-sorted_records_iff_example : Mem luis (sorted_records rt searching) ↔ (
    Mem luis three
    × (status_label luis ≡ needs_review)
    × HasText rt (rt.lower (trim (js " ui "))) luis)
Mem-sorted_records_iff_example = Mem-sorted_records_iff rt searching luis

All-numbers : All (λ (r : ClientRecord). IsOfKind rt lawful true (sort_value r (js "amount"))) three
unfolding sort_value field_value lookup str_eq js numeric trim
All-numbers = ((2, refl), ((1, refl), (tt, tt)))

sorted_records-IsSorted_example : IsSorted (not_after rt by_amount) (sorted_records rt page)
sorted_records-IsSorted_example =
    sorted_records-IsSorted rt lawful true page by_amount refl All-numbers

eva_empty : sort_value eva (js "amount") ≡ none
unfolding sort_value field_value lookup str_eq js
eva_empty = refl

ana_present : sort_value ana (js "amount") ≢ none
unfolding sort_value field_value lookup str_eq js
ana_present h = cc

abbrev uploads : List IngestionRun
uploads =
    record {
      id = js "run-1";
      source_file = js "clients.csv";
      rows_total = 4;
      rows_clean = 3;
      rows_flagged = 1;
      rows_dropped_duplicates = 0;
      rows_skipped_existing = 0;
      created_at = js "2026-07-01T10:00:00Z";
    }
    ∷ []

abbrev opened : Picker
opened = record { is_open = true; active = 1 }

two_options : 1 < length (picker_options uploads)
unfolding picker_options
two_options = omega arith

abbrev moves : List Act
moves = presses arrow_down ∷ points_at 1 ∷ clicks_option 0 ∷ clicks_button ∷ presses enter ∷ []

first_shown : 0 < length (picker_options uploads)
first_shown = omega (arith, two_options)

use_picker-active_example :
    ((use_picker uploads none moves opened).0.active < length (picker_options uploads))
    × (length (picker_options uploads) ≤ 11)
    × All (IsChoice uploads) (use_picker uploads none moves opened).1
use_picker-active_example =
    use_picker-active uploads none moves opened (tt, (two_options, (first_shown, (tt, (tt, tt)))))
      two_options
