-- ===== src/Records/View.antt =====
-- frontend/src/pages/RecordsPage.tsx: what the page shows, without its markup. `percent` is the
-- rounded share that JavaScript computes, and `formats` what FieldNames.antt takes from it.
pub mod Laws
use tidybridge.Base.{
  ℕ, zero, suc, Str, js, str_eq, Bool, true, false, not, ◌&&◌, ◌||◌, Option, none, some, List, [],
  ◌∷◌, ◌++◌, if◌then◌else◌, ◌==◌, all, length, map, includes, or_else, truthy,
}
use tidybridge.Types.{ClientRecord, IngestResult, CurrentUser}
use tidybridge.I18n.{Lang, t, num, str, decimal}
use tidybridge.FieldNames.{Formats, display_field_name, format_field_value, is_title_field}
use tidybridge.Records.{
  State, Status, Filter, every, only, Direction, SortState, Runtime, clean, needs_review, approved,
  status_label, status_eq, stats, sorted_records, field_names, field_value,
}

abbrev text : Lang → Str → Str
text lang key = t lang key []

abbrev counted : Lang → Str → ℕ → Str
counted lang key n = t lang key ((js "count", num n) ∷ [])

unfoldable pub status_text : Lang → Status → Str
status_text lang clean = text lang (js "statusClean")
status_text lang approved = text lang (js "statusApproved")
status_text lang needs_review = text lang (js "statusNeedsReview")

-- A card: its label, its value, whether the table is filtered to it, whether it is disabled, and
-- the filter that a click sets.
pub record Card : Type 0 where
  pub label : Str
  pub value : Str
  pub active : Bool
  pub disabled : Bool
  pub sets : Filter

-- A count of an upload's result; a click on it, unless it is zero, sets the filter.
pub record Count : Type 0 where
  pub count : ℕ
  pub label : Str
  pub sets : Option Filter

unfoldable pub count_filter : ℕ → Str → Filter → Count
count_filter n label filter = record {
  count = n;
  label = label;
  sets = if n == 0 then none else some filter;
}

abbrev plain_count : ℕ → Str → Count
plain_count n label = record { count = n; label = label; sets = none }

pub record ResultBox : Type 0 where
  pub title : Str
  pub counts : List Count
  pub shows_records : Bool

unfoldable pub result_box : Lang → IngestResult → ResultBox
result_box lang r = record {
  title = counted lang (js "rowsProcessed") r.rows_total;
  counts =
      count_filter r.rows_clean (counted lang (js "clean") r.rows_clean) (only clean)
      ∷ count_filter r.rows_flagged (counted lang (js "needReview") r.rows_flagged)
          (only needs_review)
      ∷ plain_count r.rows_dropped_duplicates
          (counted lang (js "duplicatesSkipped") r.rows_dropped_duplicates)
      ∷ (if r.rows_skipped_existing == 0
          then []
          else plain_count r.rows_skipped_existing
              (counted lang (js "alreadyImported") r.rows_skipped_existing)
            ∷ []);
  shows_records = r.mapping_is_default && not (length r.records == 0);
}

pub record Header : Type 0 where
  pub label : Str
  pub key : Str
  pub direction : Option Direction

unfoldable pub header : Option SortState → Str → Str → Header
header none label key = record { label = label; key = key; direction = none }
header (some sort) label key = record {
  label = label;
  key = key;
  direction = if str_eq sort.key key then some sort.direction else none;
}

-- A cell's text, and the path that it links to, if any.
pub record Cell : Type 0 where
  pub shown : Str
  pub link : Option Str

pub record Row : Type 0 where
  pub id : Str
  pub checked : Bool
  pub cells : List Cell
  pub status : Str
  pub review : Option Str

pub record Table : Type 0 where
  pub all_checked : Bool
  pub headers : List Header
  pub delete_selected : Option (Str × Bool)
  pub rows : List Row

pub data Content : Type 0 where
  waits : Content
  says : Str → Content
  lists : Table → Content

abbrev share : (ℕ → ℕ → Str) → ℕ → ℕ → Str
share percent part total = decimal part ++ (js " (" ++ (percent part total ++ js "%)"))

module _ (rt : Runtime) where
  -- Whether the box in the header is checked.
  unfoldable pub select_all_checked : State → Bool
  select_all_checked s =
      not (length (sorted_records rt s) == 0)
      && all (λ (r : ClientRecord). includes s.selected r.id) (sorted_records rt s)

module _ (rt : Runtime) (formats : Formats) (percent : ℕ → ℕ → Str) (lang : Lang) where
  abbrev card : State → Str → Str → Bool → Filter → Card
  card s label value active filter = record {
    label = text lang label;
    value = value;
    active = active;
    disabled = s.uploading;
    sets = filter;
  }

  abbrev is_every : Filter → Bool
  is_every every = true
  is_every (only status) = false

  abbrev is_only : Status → Filter → Bool
  is_only status every = false
  is_only status (only status') = status_eq status' status

  unfoldable pub cards : State → List Card
  cards s =
      let counts = stats s.records in
      if not s.loading && (not (truthy s.error) && not (length s.records == 0))
      then card s (js "statTotal") (decimal counts.total) (is_every s.filter) every
        ∷ card s (js "statClean") (decimal counts.clean) (is_only clean s.filter) (only clean)
        ∷ card s (js "statNeedsReview") (share percent counts.needs_review counts.total)
            (is_only needs_review s.filter) (only needs_review)
        ∷ card s (js "statApproved") (decimal counts.approved) (is_only approved s.filter)
            (only approved)
        ∷ []
      else []

  unfoldable pub cell : ClientRecord → Str → ℕ → Cell
  cell r name index = record {
    shown = or_else (format_field_value formats lang name (field_value r name)) (js "—");
    link = if is_title_field name index then some (js "/records/" ++ r.id) else none;
  }

  abbrev cells_from : ℕ → ClientRecord → List Str → List Cell
  cells_from index r [] = []
  cells_from index r (name ∷ names) = cell r name index ∷ cells_from (suc index) r names

  unfoldable pub row : State → ClientRecord → Row
  row s r = record {
    id = r.id;
    checked = includes s.selected r.id;
    cells = cells_from 0 r (field_names s.records);
    status = status_text lang (status_label r);
    review =
        if status_eq (status_label r) needs_review then some (js "/records/" ++ r.id) else none;
  }

  unfoldable pub delete_button : State → Option (Str × Bool)
  delete_button s =
      if length s.selected == 0
      then none
      else some (
        if s.bulk_deleting
            then text lang (js "deleting")
            else counted lang (js "deleteCount") (length s.selected),
        s.bulk_deleting,
      )

  unfoldable pub table : State → Table
  table s = record {
    all_checked = select_all_checked rt s;
    headers =
        map (λ name. header s.sort (display_field_name formats lang name) name)
          (field_names s.records)
        ++ (header s.sort (text lang (js "status")) (js "has_issues") ∷ []);
    delete_selected = delete_button s;
    rows = map (row s) (sorted_records rt s);
  }

  unfoldable pub content : State → Content
  content s =
      if s.loading
      then waits
      else if truthy s.error
      then says (or_else s.error [])
      else if (length s.records == 0)
      then says (text lang (js "noRecordsYet"))
      else if (length (sorted_records rt s) == 0)
      then says (text lang (js "noMatches"))
      else lists (table s)

-- The button that exports, and whether it is disabled.
unfoldable pub export_button : Lang → State → Str × Bool
export_button lang s = (
  text lang (if s.exporting then js "exporting" else js "exportCsv"),
  s.exporting || (s.uploading || (length s.records == 0)),
)

-- The button that uploads; `extraction` is whether the server reads invoices.
unfoldable pub upload_button : Lang → Bool → State → Str × Bool
upload_button lang extraction s = (
  text lang (
      if s.uploading
      then js "uploading"
      else if extraction
      then js "uploadFileOrInvoice"
      else js "uploadFile"),
  s.uploading,
)

-- What the file input accepts.
unfoldable pub accepted_files : Bool → Str
accepted_files extraction =
    if extraction then js ".csv,.xlsx,.xls,.pdf,.png,.jpg,.jpeg,.webp" else js ".csv,.xlsx,.xls"

-- The dialogs: title and message, while one is open.
unfoldable pub delete_dialog : Lang → Bool → State → Option (Str × Str)
delete_dialog lang webhooks s = elim s.pending_delete [
  | none ↦ none
  | some id ↦ some (
    text lang (js "deleteRecordTitle"),
    text lang (if webhooks then js "deleteRecordMessageWebhooks" else js "deleteRecordMessage"),
  )
]

unfoldable pub bulk_delete_dialog : Lang → Bool → State → Option (Str × Str)
bulk_delete_dialog lang webhooks s =
    if s.pending_bulk_delete
    then some (
      counted lang (js "deleteRecordsTitle") (length s.selected),
      text lang (if webhooks then js "deleteRecordsMessageWebhooks" else js "deleteRecordsMessage"),
    )
    else none
