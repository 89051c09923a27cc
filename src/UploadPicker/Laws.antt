-- ===== src/UploadPicker/Laws.antt =====
-- UploadPicker.tsx: the highlight stays on an option, and what is chosen is one of them.
use tidybridge.Base.{
  ℕ, zero, suc, ◌+◌, ◌≤◌, ◌<◌, Str, true, false, ◌≡◌, refl, ap, ◌∙◌, inl, inr, Option, none, some,
  List, [], ◌∷◌, arith, keep, keep-All, take, length, length-take, get_elem?, map, All, Bool-cases,
  All-keep, All-Mem,
}
use mathlib.Core.List.{Mem}
use tidybridge.Types.{IngestionRun}
use tidybridge.UploadPicker.{
  max_options, has_records, picker_options, option_id, selected_run, index_or_first, Picker, Key,
  arrow_down, arrow_up, enter, space, Pressed, open_menu, option_at, choose, press_closed,
  press_open, press,
}

length-map {ℓ κ} :
    {A : Type ℓ} {B : Type κ} (f : A → B) (xs : List A) → length (map f xs) ≡ length xs
length-map f [] = refl
length-map f (x ∷ xs) = omega (arith, length-map f xs)

index_or_first-lt :
    (id : Option Str) (os : List (Option IngestionRun)) (i n : ℕ)
    → i + length os ≤ n
    → 0 < n
    → index_or_first id os i < n
unfolding index_or_first
index_or_first-lt id [] i n h p = p
index_or_first-lt id (o ∷ os) i n h p =
    ground (arith, index_or_first-lt id os (i + 1) n (omega arith) p)

module _ (runs : List IngestionRun) (value : Option Str) where
  options_bounds : (1 ≤ length (picker_options runs)) × (length (picker_options runs) ≤ 11)
  unfolding picker_options
  options_bounds =
      let ten = length-take max_options (keep has_records runs) in
      let same =
        length-map (λ (r : IngestionRun). some r) (take max_options (keep has_records runs)) in
      (omega arith, omega arith)

  pub opened_active : (p : Picker) → (open_menu runs value p).active < length (picker_options runs)
  unfolding open_menu
  opened_active p =
      index_or_first-lt (option_id (selected_run runs value)) (picker_options runs) 0
        (length (picker_options runs)) (omega arith) (omega (arith, options_bounds.0))

  press_closed-active :
      (key : Key) (p : Picker)
      → p.active < length (picker_options runs)
      → (press_closed runs value key p).picker.active < length (picker_options runs)
  unfolding press_closed
  press_closed-active arrow_down p h = opened_active p
  press_closed-active enter p h = opened_active p
  press_closed-active space p h = opened_active p
  press_closed-active _ p h = h

  press_open-active :
      (key : Key) (p : Picker)
      → p.active < length (picker_options runs)
      → (press_open runs value key p).picker.active < length (picker_options runs)
  unfolding press_open choose
  press_open-active arrow_down p h = omega (arith, options_bounds.0)
  press_open-active arrow_up p h = omega arith
  press_open-active _ p h = h

  -- After every key the highlight is on one of the options, of which there are at most eleven, if
  -- it was on one before.
  pub press-active :
      (key : Key) (p : Picker)
      → p.active < length (picker_options runs)
      → ((press runs value key p).picker.active < length (picker_options runs))
        × (length (picker_options runs) ≤ 11)
  unfolding press
  press-active key p h = elim (Bool-cases p.is_open) [
    | inl opened ↦ (simp opened (press_open-active key p h), options_bounds.1)
    | inr closed ↦ (simp closed (press_closed-active key p h), options_bounds.1)
  ]

-- "All uploads", or one of the uploads, which created records.
abbrev pub IsOffered : List IngestionRun → Option IngestionRun → Type 0
IsOffered runs none = Unit
IsOffered runs (some r) = Mem r runs × (has_records r ≡ true)

All-both {ℓ κ κ'} :
    {A : Type ℓ} (P : A → Type κ) (Q : A → Type κ') (xs : List A)
    → All P xs
    → All Q xs
    → All (λ (x : A). P x × Q x) xs
All-both P Q [] h k = tt
All-both P Q (x ∷ xs) (p, h) (q, k) = ((p, q), All-both P Q xs h k)

kept_runs :
    (runs : List IngestionRun)
    → All (λ (r : IngestionRun). Mem r runs × (has_records r ≡ true)) (keep has_records runs)
kept_runs runs =
    All-both (λ (r : IngestionRun). Mem r runs) (λ (r : IngestionRun). has_records r ≡ true) _
      (All-keep (λ (r : IngestionRun). Mem r runs) has_records runs (All-Mem runs))
      (keep-All has_records runs)

take-All {ℓ κ} : {A : Type ℓ} (P : A → Type κ) (n : ℕ) (xs : List A) → All P xs → All P (take n xs)
take-All P zero xs h = tt
take-All P (suc n) [] h = tt
take-All P (suc n) (x ∷ xs) (p, h) = (p, take-All P n xs h)

IsOffered-some :
    (runs rs : List IngestionRun)
    → All (λ (r : IngestionRun). Mem r runs × (has_records r ≡ true)) rs
    → All (IsOffered runs) (map (λ (r : IngestionRun). some r) rs)
IsOffered-some runs [] h = tt
IsOffered-some runs (r ∷ rs) (p, h) = (p, IsOffered-some runs rs h)

pub options-IsOffered : (runs : List IngestionRun) → All (IsOffered runs) (picker_options runs)
unfolding picker_options
options-IsOffered runs = (
  tt,
  IsOffered-some runs _ (
      take-All (λ (r : IngestionRun). Mem r runs × (has_records r ≡ true)) max_options
        (keep has_records runs) (kept_runs runs)),
)

pub at-IsOffered :
    (runs : List IngestionRun) (os : List (Option IngestionRun)) (i : ℕ)
    → All (IsOffered runs) os
    → i < length os
    → (o : Option IngestionRun) × (get_elem? os i ≡ some o) × IsOffered runs o
at-IsOffered runs [] i h l = absurd (omega arith)
at-IsOffered runs (o ∷ os) zero (p, h) l = (o, refl, p)
at-IsOffered runs (o ∷ os) (suc i) (p, h) l = at-IsOffered runs os i h (omega arith)

enter_open :
    (runs : List IngestionRun) (value : Option Str) (p : Picker)
    → p.is_open ≡ true
    → press runs value enter p ≡ choose runs value (option_at runs value p.active) p
unfolding press press_open
enter_open runs value p opened = simp opened

pub option_at_eq :
    (runs : List IngestionRun) (value : Option Str) (i : ℕ) (o : Option IngestionRun)
    → get_elem? (picker_options runs) i ≡ some o
    → option_at runs value i ≡ o
option_at_eq runs value i o h = rw (h, option_at)

-- Enter on the open menu closes it and hands over the highlighted option: all uploads, or one
-- of the uploads, which created records.
pub press-chosen :
    (runs : List IngestionRun) (value : Option Str) (p : Picker)
    → p.is_open ≡ true
    → p.active < length (picker_options runs)
    → (o : Option IngestionRun) × (get_elem? (picker_options runs) p.active ≡ some o)
      × IsOffered runs o
      × ((press runs value enter p).chosen ≡ some (option_id o))
      × ((press runs value enter p).picker.is_open ≡ false)
unfolding choose
press-chosen runs value p opened h =
    let (o, there, offered) =
      at-IsOffered runs (picker_options runs) p.active (options-IsOffered runs) h in
    let chosen = enter_open runs value p opened in
    (
      o,
      there,
      offered,
      ap (λ (r : Pressed). r.chosen) chosen
          ∙ ap (λ (q : Option IngestionRun). some (option_id q))
              (option_at_eq runs value p.active o there),
      ap (λ (r : Pressed). r.picker.is_open) chosen,
    )
