-- ===== src/UploadPicker/Mouse/Use.antt =====
-- UploadPicker.tsx: whatever is done with keys and mouse.
use tidybridge.Base.{
  ℕ, ◌<◌, ◌≤◌, ◌≡◌, refl, sym, subst, Bool-cases, inl, inr, Option, none, some, List, [], ◌∷◌,
  length, All, Str, true,
}
use mathlib.Core.List.{Mem}
use tidybridge.Types.{IngestionRun}
use tidybridge.UploadPicker.{
  Picker, picker_options, option_id, option_at, choose, press, press_open, press_closed, Key,
  arrow_down, enter, space, has_records,
}
use tidybridge.UploadPicker.Laws.{
  IsOffered, press-active, opened_active, at-IsOffered, options-IsOffered, option_at_eq,
}
use tidybridge.UploadPicker.Mouse.{
  Act, presses, clicks_button, presses_outside, points_at, clicks_option, act, use_picker,
  also_chosen,
}

-- An option that the pointer is on is shown.
abbrev pub IsPossible : List IngestionRun → Act → Type 0
IsPossible runs (presses key) = Unit
IsPossible runs clicks_button = Unit
IsPossible runs presses_outside = Unit
IsPossible runs (points_at i) = i < length (picker_options runs)
IsPossible runs (clicks_option i) = i < length (picker_options runs)

-- It stands for all uploads, or is the id of one of the uploads, which created records.
abbrev pub IsChoice : List IngestionRun → Option Str → Type 0
IsChoice runs none = Unit
IsChoice runs (some id) = (r : IngestionRun) × Mem r runs × (has_records r ≡ true) × (r.id ≡ id)

abbrev IsFine : List IngestionRun → Option (Option Str) → Type 0
IsFine runs none = Unit
IsFine runs (some id) = IsChoice runs id

offered-IsChoice :
    (runs : List IngestionRun) (o : Option IngestionRun)
    → IsOffered runs o
    → IsChoice runs (option_id o)
offered-IsChoice runs none h = tt
offered-IsChoice runs (some r) (there, created) = (r, there, created, refl)

module _ (runs : List IngestionRun) (value : Option Str) where
  option_at-IsChoice :
      (i : ℕ)
      → i < length (picker_options runs)
      → IsChoice runs (option_id (option_at runs value i))
  option_at-IsChoice i h =
      let (o, there, offered) =
        at-IsOffered runs (picker_options runs) i (options-IsOffered runs) h in
      offered-IsChoice runs (option_at runs value i)
        (subst (IsOffered runs) (sym (option_at_eq runs value i o there)) offered)

  press_open-IsFine :
      (key : Key) (p : Picker)
      → p.active < length (picker_options runs)
      → IsFine runs (press_open runs value key p).chosen
  unfolding press_open choose
  press_open-IsFine enter p h = option_at-IsChoice p.active h
  press_open-IsFine space p h = option_at-IsChoice p.active h
  press_open-IsFine _ p h = tt

  press_closed-IsFine :
      (key : Key) (p : Picker) → IsFine runs (press_closed runs value key p).chosen
  unfolding press_closed
  press_closed-IsFine arrow_down p = tt
  press_closed-IsFine enter p = tt
  press_closed-IsFine space p = tt
  press_closed-IsFine _ p = tt

  press-IsFine :
      (key : Key) (p : Picker)
      → p.active < length (picker_options runs)
      → IsFine runs (press runs value key p).chosen
  unfolding press
  press-IsFine key p h = elim (Bool-cases p.is_open) [
    | inl opened ↦ simp opened (press_open-IsFine key p h)
    | inr closed ↦ simp closed (press_closed-IsFine key p)
  ]

  act-active :
      (a : Act) (p : Picker)
      → IsPossible runs a
      → p.active < length (picker_options runs)
      → (act runs value a p).picker.active < length (picker_options runs)
  unfolding act choose
  act-active (presses key) p k h = (press-active runs value key p h).0
  act-active clicks_button p k h = elim (Bool-cases p.is_open) [
    | inl opened ↦ rw opened h
    | inr closed ↦ simp closed (opened_active runs value p)
  ]
  act-active presses_outside p k h = elim (Bool-cases p.is_open) [
    | inl opened ↦ rw opened h
    | inr closed ↦ rw closed h
  ]
  act-active (points_at i) p k h = k
  act-active (clicks_option i) p k h = h

  act-IsFine :
      (a : Act) (p : Picker)
      → IsPossible runs a
      → p.active < length (picker_options runs)
      → IsFine runs (act runs value a p).chosen
  unfolding act choose
  act-IsFine (presses key) p k h = press-IsFine key p h
  act-IsFine clicks_button p k h = tt
  act-IsFine presses_outside p k h = tt
  act-IsFine (points_at i) p k h = tt
  act-IsFine (clicks_option i) p k h = option_at-IsChoice i k

  with_chosen :
      (c : Option (Option Str)) (ids : List (Option Str))
      → IsFine runs c
      → All (IsChoice runs) ids
      → All (IsChoice runs) (also_chosen runs value c ids)
  with_chosen none ids h k = k
  with_chosen (some id) ids h k = (h, k)

  -- Whatever is done with keys and mouse, in any order, while the uploads stay the same: the
  -- highlight stays on one of the options, of which there are at most eleven, and the table is only
  -- ever asked for all uploads or for one of those uploads, which created records.
  pub use_picker-active :
      (acts : List Act) (p : Picker)
      → All (IsPossible runs) acts
      → p.active < length (picker_options runs)
      → ((use_picker runs value acts p).0.active < length (picker_options runs))
        × (length (picker_options runs) ≤ 11)
        × All (IsChoice runs) (use_picker runs value acts p).1
  unfolding use_picker
  use_picker-active [] p k h = (h, (press-active runs value enter p h).1, tt)
  use_picker-active (a ∷ acts) p (k, ks) h =
      let (active, few, choices) =
        use_picker-active acts (act runs value a p).picker ks (act-active a p k h) in
      (active, few, with_chosen (act runs value a p).chosen _ (act-IsFine a p k h) choices)
