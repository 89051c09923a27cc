-- ===== src/UploadPicker.antt =====
-- frontend/src/components/UploadPicker.tsx: the listbox that filters the records by one upload.
pub mod Laws
pub mod Mouse
use tidybridge.Base.{
  ℕ, zero, suc, ◌+◌, ◌-◌, Str, js, str_eq, Bool, true, false, not, ◌&&◌, Option, none, some, List,
  [], ◌∷◌, if◌then◌else◌, ◌==◌, ltb, keep, take, find, length, get_elem?, map,
}
use Prim.Native.Nat.{min}
use tidybridge.Types.{IngestionRun}

abbrev pub max_options : ℕ
max_options = 10

-- The run created records: r.rows_clean + r.rows_flagged > 0
abbrev pub has_records : IngestionRun → Bool
has_records r = ltb 0 (r.rows_clean + r.rows_flagged)

-- `null`, for all uploads, and then the recent uploads that created records.
unfoldable pub picker_options : List IngestionRun → List (Option IngestionRun)
picker_options runs =
    none ∷ map (λ (r : IngestionRun). some r) (take max_options (keep has_records runs))

abbrev pub id_eq : Option Str → Option Str → Bool
id_eq none none = true
id_eq (some a) (some b) = str_eq a b
id_eq none (some b) = false
id_eq (some a) none = false

-- option?.id ?? null
abbrev pub option_id : Option IngestionRun → Option Str
option_id none = none
option_id (some r) = some r.id

-- runs.find((r) => r.id === value) ?? null
unfoldable pub selected_run : List IngestionRun → Option Str → Option IngestionRun
selected_run runs value = find (λ (r : IngestionRun). id_eq (some r.id) value) runs

-- findIndex, with 0 for -1: Math.max(current, 0)
unfoldable pub index_or_first : Option Str → List (Option IngestionRun) → ℕ → ℕ
index_or_first id [] i = 0
index_or_first id (o ∷ os) i =
    let later = index_or_first id os (i + 1) in if id_eq (option_id o) id then i else later

pub record Picker : Type 0 where
  pub is_open : Bool
  pub active : ℕ

pub data Key : Type 0 where
  arrow_down arrow_up enter space escape tab other : Key

-- What a key does: the picker after it, and what onChange is called with, if it is.
pub record Pressed : Type 0 where
  pub picker : Picker
  pub chosen : Option (Option Str)

module _ (runs : List IngestionRun) (value : Option Str) where
  unfoldable pub open_menu : Picker → Picker
  open_menu p = record {
    is_open = true;
    active = index_or_first (option_id (selected_run runs value)) (picker_options runs) 0;
  }

  -- options[active], undefined past the end, which choose() takes for "all uploads".
  abbrev pub option_at : ℕ → Option IngestionRun
  option_at i = elim (get_elem? (picker_options runs) i) [ none ↦ none | some o ↦ o ]

  unfoldable pub choose : Option IngestionRun → Picker → Pressed
  choose option p = record {
    picker = record p { is_open = false };
    chosen = some (option_id option);
  }

  abbrev stay : Picker → Pressed
  stay p = record { picker = p; chosen = none }

  -- onKeyDown while the menu is closed, and while it is open.
  unfoldable pub press_closed : Key → Picker → Pressed
  press_closed arrow_down p = stay (open_menu p)
  press_closed enter p = stay (open_menu p)
  press_closed space p = stay (open_menu p)
  press_closed _ p = stay p

  unfoldable pub press_open : Key → Picker → Pressed
  press_open escape p = stay (record p { is_open = false })
  press_open arrow_down p =
      stay (record p { active = min (p.active + 1) (length (picker_options runs) - 1) })
  press_open arrow_up p = stay (record p { active = p.active - 1 })
  press_open enter p = choose (option_at p.active) p
  press_open space p = choose (option_at p.active) p
  press_open tab p = stay (record p { is_open = false })
  press_open other p = stay p

  unfoldable pub press : Key → Picker → Pressed
  press key p = if p.is_open then press_open key p else press_closed key p
