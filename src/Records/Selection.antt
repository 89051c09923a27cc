-- ===== src/Records/Selection.antt =====
-- RecordsPage.tsx: the selected rows, and what the deletions leave.
use tidybridge.Base.{
  Str, str_eq, str_eq_iff, not, ◌&&◌, ◌||◌, ◌≡◌, refl, inl, inr, List, [], ◌∷◌, ◌++◌, arith,
  if◌then◌else◌, all, map, includes, Bool-cases,
}
use tidybridge.Types.{ClientRecord}
use tidybridge.Records.{State, Runtime, sorted_records}
use tidybridge.Records.Handlers.{
  add_id, drop_id, toggle_id, select_all, deselect_all, toggle_visible, toggle_selected,
  toggle_select_all_visible,
}

includes-append :
    (xs : List Str) (i j : Str) → includes (xs ++ i ∷ []) j ≡ (includes xs j || str_eq i j)
unfolding includes
includes-append [] i j = ground arith
includes-append (x ∷ xs) i j = ground (arith, includes-append xs i j)

pub includes-add_id :
    (ids : List Str) (i j : Str) → includes (add_id i ids) j ≡ (includes ids j || str_eq i j)
includes-add_id ids i j = elim (Bool-cases (includes ids i)) [
  | inl there ↦ ground (arith, str_eq_iff i j)
  | inr absent ↦ rw (absent, includes-append ids i j)
]

pub includes-drop_id :
    (ids : List Str) (i j : Str) → includes (drop_id i ids) j ≡ (includes ids j && not (str_eq i j))
unfolding includes
includes-drop_id [] i j = refl
includes-drop_id (x ∷ ids) i j =
    ground (arith, includes-drop_id ids i j, str_eq_iff x i, str_eq_iff x j, str_eq_iff i j)

pub includes-toggle_id :
    (ids : List Str) (i j : Str)
    → includes (toggle_id i ids) j ≡ (if str_eq i j then not (includes ids j) else includes ids j)
unfolding toggle_id
includes-toggle_id ids i j = elim (Bool-cases (includes ids i)) [
  | inl there ↦ rw (there, includes-drop_id ids i j) (ground (arith, str_eq_iff i j))
  | inr absent ↦ rw (absent, includes-append ids i j) (ground (arith, str_eq_iff i j))
]

-- Clicking a row's box twice leaves the same rows selected.
pub toggle_selected_twice :
    (id j : Str) (s : State)
    → includes (toggle_selected id (toggle_selected id s)).selected j ≡ includes s.selected j
unfolding toggle_selected
toggle_selected_twice id j s =
    ground
      (arith, includes-toggle_id (toggle_id id s.selected) id j, includes-toggle_id s.selected id j)

includes-select_all :
    (visible ids : List Str) (j : Str)
    → includes (select_all visible ids) j ≡ (includes visible j || includes ids j)
unfolding select_all includes
includes-select_all [] ids j = refl
includes-select_all (v ∷ visible) ids j =
    ground (arith, includes-select_all visible (add_id v ids) j, includes-add_id ids v j)

includes-deselect_all :
    (visible ids : List Str) (j : Str)
    → includes (deselect_all visible ids) j ≡ (not (includes visible j) && includes ids j)
unfolding deselect_all includes
includes-deselect_all [] ids j = refl
includes-deselect_all (v ∷ visible) ids j =
    ground (arith, includes-deselect_all visible (drop_id v ids) j, includes-drop_id ids v j)

abbrev pub row_ids : List ClientRecord → List Str
row_ids rows = map (λ (r : ClientRecord). r.id) rows

includes-toggle_visible :
    (visible ids : List Str) (j : Str)
    → includes (toggle_visible visible ids) j
      ≡ (if includes visible j then not (all (includes ids) visible) else includes ids j)
unfolding toggle_visible
includes-toggle_visible visible ids j =
    ground (arith, includes-select_all visible ids j, includes-deselect_all visible ids j)

-- The box in the header: the rows shown are all deselected if all were selected and all selected
-- if not, and a row that is not shown stays as it was.
pub includes-toggle_select_all_visible :
    (rt : Runtime) (s : State) (j : Str)
    → includes (toggle_select_all_visible rt s).selected j ≡ (
        if includes (row_ids (sorted_records rt s)) j
        then not (all (includes s.selected) (row_ids (sorted_records rt s)))
        else includes s.selected j)
unfolding toggle_select_all_visible
includes-toggle_select_all_visible rt s j =
    includes-toggle_visible (row_ids (sorted_records rt s)) s.selected j
