-- ===== src/UploadPicker/Mouse.antt =====
-- frontend/src/components/UploadPicker.tsx: the mouse, what is shown, and any use of keys and mouse.
-- `stamp` is toLocaleString of a time, with the options that `when` gives it.
pub mod Use
use tidybridge.Base.{
  ℕ, ◌+◌, Str, js, Bool, true, false, Option, none, some, List, [], ◌∷◌, ◌++◌, if◌then◌else◌, ◌==◌,
  ltb,
}
use tidybridge.I18n.{Lang, t, num, decimal}
use tidybridge.Types.{IngestionRun}
use tidybridge.UploadPicker.{
  Picker, Key, Pressed, open_menu, option_at, option_id, choose, press, picker_options,
  selected_run, id_eq,
}

-- A key; a click on the button; a press of the mouse outside; and, on the option of an index, the
-- pointer or a click.
pub data Act : Type 0 where
  presses : Key → Act
  clicks_button presses_outside : Act
  points_at clicks_option : ℕ → Act

abbrev only : Picker → Pressed
only p = record { picker = p; chosen = none }

module _ (runs : List IngestionRun) (value : Option Str) where
  unfoldable pub act : Act → Picker → Pressed
  act (presses key) p = press runs value key p
  act clicks_button p =
      only (if p.is_open then record p { is_open = false } else open_menu runs value p)
  act presses_outside p = only (if p.is_open then record p { is_open = false } else p)
  act (points_at i) p = only (record p { active = i })
  act (clicks_option i) p = choose runs value (option_at runs value i) p

  abbrev also_chosen : Option (Option Str) → List (Option Str) → List (Option Str)
  also_chosen none ids = ids
  also_chosen (some id) ids = id ∷ ids

  -- The picker after some acts, and what onChange was called with, in order.
  unfoldable pub use_picker : List Act → Picker → Picker × List (Option Str)
  use_picker [] p = (p, [])
  use_picker (a ∷ acts) p =
      let pressed = act a p in
      let (q, ids) = use_picker acts pressed.picker in (q, also_chosen pressed.chosen ids)

-- The button's text.
unfoldable pub trigger_text : (Str → Str) → Lang → List IngestionRun → Option Str → Str
trigger_text stamp lang runs value = elim (selected_run runs value) [
  | none ↦ t lang (js "allUploads") []
  | some r ↦ r.source_file ++ (js " · " ++ stamp r.created_at)
]

pub record OptionRow : Type 0 where
  pub selected : Bool
  pub highlighted : Bool
  pub title : Str
  pub details : List Str

unfoldable pub option_row :
    (Str → Str) → Lang → Option IngestionRun → ℕ → ℕ → Option IngestionRun → OptionRow
option_row stamp lang chosen active i none = record {
  selected = id_eq none (option_id chosen);
  highlighted = i == active;
  title = t lang (js "allUploads") [];
  details = [];
}
option_row stamp lang chosen active i (some r) = record {
  selected = id_eq (some r.id) (option_id chosen);
  highlighted = i == active;
  title = r.source_file;
  details =
      stamp r.created_at
      ∷ (decimal r.rows_clean
          ++ (js " " ++ t lang (js "clean") ((js "count", num r.rows_clean) ∷ [])))
      ∷ (if ltb 0 r.rows_flagged
          then (decimal r.rows_flagged
              ++ (js " " ++ t lang (js "needReview") ((js "count", num r.rows_flagged) ∷ [])))
            ∷ []
          else []);
}
