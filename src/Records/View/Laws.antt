-- ===== src/Records/View/Laws.antt =====
-- RecordsPage.tsx: what is shown follows the state.
use tidybridge.Base.{
  ℕ, Str, str_eq_refl, Bool, true, not, ◌&&◌, ◌||◌, ◌≡◌, refl, ◌∙◌, ap, ◌⊎◌, inl, inr, List, [],
  ◌∷◌, arith, ◌==◌, all, includes, length, trim, Bool-cases, Option-cases, keep, length-sort_by,
}
use tidybridge.Types.{ClientRecord}
use tidybridge.Records.{
  State, Runtime, Filter, every, only, StatCounts, clean, needs_review, approved, stats,
  sorted_records, filtered_records, matches_query, not_after,
}
use tidybridge.Records.Handlers.{toggle_select_all_visible}
use tidybridge.Records.Selection.{row_ids, includes-toggle_select_all_visible}
use tidybridge.Records.Stats.{length-filtered_records}
use tidybridge.Records.View.{select_all_checked}

-- A test that gives one answer on every id of a list.
all_equal :
    (p : Str → Bool) (b : Bool) (ids : List Str)
    → ((j : Str) → includes ids j ≡ true → p j ≡ b)
    → all p ids ≡ ((length ids == 0) || b)
unfolding includes
all_equal p b [] h = refl
all_equal p b (i ∷ ids) h =
    let first = h i (ground (arith, str_eq_refl i)) in
    let rest = all_equal p b ids (λ j there. h j (ground (arith, there))) in
    elim (Bool-cases b) [
      | inl given ↦ ground (arith, first, rest, given)
      | inr refused ↦ ground (arith, first, rest, refused)
    ]

all-row_ids :
    (p : Str → Bool) (rows : List ClientRecord)
    → all p (row_ids rows) ≡ all (λ (r : ClientRecord). p r.id) rows
all-row_ids p [] = refl
all-row_ids p (r ∷ rows) = ap (λ b. p r.id && b) (all-row_ids p rows)

length-row_ids : (rows : List ClientRecord) → length (row_ids rows) ≡ length rows
length-row_ids [] = refl
length-row_ids (r ∷ rows) = omega (arith, length-row_ids rows)

keep_all {ℓ} : {A : Type ℓ} (p : A → Bool) (xs : List A) → ((x : A) → p x ≡ true) → keep p xs ≡ xs
keep_all p [] h = refl
keep_all p (x ∷ xs) h = rw (h x, keep_all p xs h) refl

-- How many records a card counts.
abbrev pub card_count : Filter → StatCounts → ℕ
card_count every counts = counts.total
card_count (only clean) counts = counts.clean
card_count (only needs_review) counts = counts.needs_review
card_count (only approved) counts = counts.approved

module _ (rt : Runtime) where
  same_rows : (s : State) → sorted_records rt (toggle_select_all_visible rt s) ≡ sorted_records rt s
  unfolding sorted_records filtered_records toggle_select_all_visible
  same_rows s = refl

  toggled_rows :
      (s : State)
      → all (includes (toggle_select_all_visible rt s).selected) (row_ids (sorted_records rt s)) ≡ (
          (length (sorted_records rt s) == 0)
          || not (all (includes s.selected) (row_ids (sorted_records rt s))))
  toggled_rows s =
      let ids = row_ids (sorted_records rt s) in
      all_equal (includes (toggle_select_all_visible rt s).selected)
        (not (all (includes s.selected) ids)) ids
        (λ j there. ground (arith, includes-toggle_select_all_visible rt s j, there))
      ∙ ap (λ n. (n == 0) || not (all (includes s.selected) ids))
          (length-row_ids (sorted_records rt s))

  -- A click on the box in the header: while rows are shown, it is checked after if it was not
  -- before, and not if it was; with no rows, it stays unchecked. And a row that is not shown stays
  -- selected or not.
  pub select_all_checked-toggle_select_all_visible :
      (s : State) (j : Str)
      → (select_all_checked rt (toggle_select_all_visible rt s)
          ≡ (not (length (sorted_records rt s) == 0) && not (select_all_checked rt s)))
        × ((includes (row_ids (sorted_records rt s)) j ≡ true)
            ⊎ (includes (toggle_select_all_visible rt s).selected j ≡ includes s.selected j))
  unfolding select_all_checked
  select_all_checked-toggle_select_all_visible s j = (
    rw
        (
          same_rows s,
          ← all-row_ids (includes (toggle_select_all_visible rt s).selected) (sorted_records rt s),
          ← all-row_ids (includes s.selected) (sorted_records rt s),
          toggled_rows s,
        )
        (ground arith),
    elim (Bool-cases (includes (row_ids (sorted_records rt s)) j)) [
      | inl shown ↦ inl shown
      | inr hidden ↦ inr (ground (arith, includes-toggle_select_all_visible rt s j, hidden))
    ],
  )

  length-sorted_records :
      (s : State) → length (sorted_records rt s) ≡ length (filtered_records rt s)
  unfolding sorted_records
  length-sorted_records s = elim (Option-cases s.sort) [
    | inl unsorted ↦ rw unsorted refl
    | inr (sort, sorted) ↦ rw sorted (length-sort_by (not_after rt sort) _)
  ]

  all_pass :
      (s : State)
      → rt.lower (trim s.search) ≡ []
      → length (filtered_records rt (record s { filter = every })) ≡ length s.records
  unfolding filtered_records matches_query
  all_pass s nothing =
      rw nothing (ap length (keep_all (matches_query rt []) s.records (λ r. ground arith)))

  filtered_count :
      (s : State) (f : Filter)
      → rt.lower (trim s.search) ≡ []
      → length (filtered_records rt (record s { filter = f })) ≡ card_count f (stats s.records)
  unfolding stats
  filtered_count s every nothing = all_pass s nothing
  filtered_count s (only clean) nothing =
      length-filtered_records rt (record s { filter = only clean }) clean refl nothing
  filtered_count s (only needs_review) nothing =
      length-filtered_records rt (record s { filter = only needs_review }) needs_review refl nothing
  filtered_count s (only approved) nothing =
      length-filtered_records rt (record s { filter = only approved }) approved refl nothing

  -- While nothing is searched, a click on a card leads to as many rows as the card counts.
  pub length-sorted_records_card :
      (s : State) (f : Filter)
      → rt.lower (trim s.search) ≡ []
      → length (sorted_records rt (record s { filter = f })) ≡ card_count f (stats s.records)
  length-sorted_records_card s f nothing =
      length-sorted_records (record s { filter = f }) ∙ filtered_count s f nothing
