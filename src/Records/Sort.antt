-- ===== src/Records/Sort.antt =====
-- RecordsPage.tsx: the order that `compareRecords` gives the rows, and where the empty ones stand.
use tidybridge.Base.{
  Str, Bool, true, false, ◌≡◌, ◌≢◌, All-keep, refl, sym, ◌∙◌, ap, Option, none, some, arith, All,
  IsSorted, sort_by-IsSorted,
}
use tidybridge.Types.{ClientRecord}
use tidybridge.Records.{
  Direction, asc, desc, SortState, Sign, before, same, after, negate, Runtime, sort_value, numeric,
  compare_numeric, compare_present, compare_values, compare_records, not_after, State,
  sorted_records, filtered_records,
}

abbrev pub sign_le : Sign → Bool
sign_le before = true
sign_le same = true
sign_le after = false

-- What JavaScript and Unicode say of the two comparisons: each is a total preorder.
pub record IsLawful (rt : Runtime) : Type 0 where
  pub numbers_negate : (x y : rt.Number) → rt.compare_numbers y x ≡ negate (rt.compare_numbers x y)
  pub numbers_trans :
      (x y z : rt.Number)
      → sign_le (rt.compare_numbers x y) ≡ true
      → sign_le (rt.compare_numbers y z) ≡ true
      → sign_le (rt.compare_numbers x z) ≡ true
  pub locale_negate : (a b : Str) → rt.locale_compare b a ≡ negate (rt.locale_compare a b)
  pub locale_trans :
      (a b c : Str)
      → sign_le (rt.locale_compare a b) ≡ true
      → sign_le (rt.locale_compare b c) ≡ true
      → sign_le (rt.locale_compare a c) ≡ true

module _ (rt : Runtime) (lawful : IsLawful rt) where
  compare_numeric-negate :
      (a b : Option (rt.Number)) (v w : Str)
      → compare_numeric rt b a (rt.locale_compare w v)
        ≡ negate (compare_numeric rt a b (rt.locale_compare v w))
  unfolding compare_numeric
  compare_numeric-negate none none v w = lawful.locale_negate v w
  compare_numeric-negate none (some y) v w = lawful.locale_negate v w
  compare_numeric-negate (some x) none v w = lawful.locale_negate v w
  compare_numeric-negate (some x) (some y) v w = lawful.numbers_negate x y

  negate_twice : (s : Sign) → negate (negate s) ≡ s
  negate_twice before = refl
  negate_twice same = refl
  negate_twice after = refl

  compare_values-negate :
      (d : Direction) (a b : Option Str)
      → compare_values rt d b a ≡ negate (compare_values rt d a b)
  unfolding compare_values compare_present
  compare_values-negate d none none = refl
  compare_values-negate d none (some b) = refl
  compare_values-negate d (some a) none = refl
  compare_values-negate asc (some a) (some b) =
      compare_numeric-negate (numeric rt a) (numeric rt b) a b
  compare_values-negate desc (some a) (some b) =
      ap negate (compare_numeric-negate (numeric rt a) (numeric rt b) a b)

  -- If the comparisons of numbers and of texts are lawful, swapping the records turns the
  -- comparator's sign, in both directions and for every column.
  pub compare_records-negate :
      (sort : SortState) (a b : ClientRecord)
      → compare_records rt sort b a ≡ negate (compare_records rt sort a b)
  unfolding compare_records
  compare_records-negate sort a b =
      compare_values-negate sort.direction (sort_value a sort.key) (sort_value b sort.key)

  -- A column is uniform if its values are all numbers, or none is; empty ones do not count.
  abbrev pub IsOfKind : Bool → Option Str → Type 0
  IsOfKind kind none = Unit
  IsOfKind true (some v) = (x : rt.Number) × (numeric rt v ≡ some x)
  IsOfKind false (some v) = numeric rt v ≡ none

  values_trans :
      (kind : Bool) (d : Direction) (a b c : Option Str)
      → IsOfKind kind a
      → IsOfKind kind b
      → IsOfKind kind c
      → sign_le (compare_values rt d a b) ≡ true
      → sign_le (compare_values rt d b c) ≡ true
      → sign_le (compare_values rt d a c) ≡ true
  unfolding compare_values compare_present compare_numeric
  values_trans kind d none none none ka kb kc h k = refl
  values_trans kind d none none (some c) ka kb kc h k = k
  values_trans kind d none (some b) none ka kb kc h k = refl
  values_trans kind d none (some b) (some c) ka kb kc h k = cc
  values_trans kind d (some a) none none ka kb kc h k = refl
  values_trans kind d (some a) none (some c) ka kb kc h k = cc
  values_trans kind d (some a) (some b) none ka kb kc h k = refl
  values_trans false asc (some a) (some b) (some c) ka kb kc h k =
      ground (arith, lawful.locale_trans a b c)
  values_trans false desc (some a) (some b) (some c) ka kb kc h k = ground (
    arith,
    lawful.locale_trans c b a,
    lawful.locale_negate a b,
    lawful.locale_negate b c,
    lawful.locale_negate a c,
  )
  values_trans true asc (some a) (some b) (some c) (x, ka) (y, kb) (z, kc) h k =
      ground (arith, lawful.numbers_trans x y z)
  values_trans true desc (some a) (some b) (some c) (x, ka) (y, kb) (z, kc) h k = ground (
    arith,
    lawful.numbers_trans z y x,
    lawful.numbers_negate x y,
    lawful.numbers_negate y z,
    lawful.numbers_negate x z,
  )

  not_after_lem :
      (sort : SortState) (a b : ClientRecord)
      → not_after rt sort a b ≡ sign_le (compare_records rt sort a b)
  unfolding not_after
  not_after_lem sort a b = ground arith

  le_total :
      (sort : SortState) (a b : ClientRecord)
      → not_after rt sort a b ≡ false
      → not_after rt sort b a ≡ true
  le_total sort a b h =
      ground
        (arith, not_after_lem sort a b, not_after_lem sort b a, compare_records-negate sort a b)

  le_trans :
      (kind : Bool) (sort : SortState) (a b c : ClientRecord)
      → IsOfKind kind (sort_value a sort.key)
      → IsOfKind kind (sort_value b sort.key)
      → IsOfKind kind (sort_value c sort.key)
      → not_after rt sort a b ≡ true
      → not_after rt sort b c ≡ true
      → not_after rt sort a c ≡ true
  unfolding compare_records
  le_trans kind sort a b c ka kb kc h k =
      not_after_lem sort a c
      ∙ values_trans kind sort.direction (sort_value a sort.key) (sort_value b sort.key)
          (sort_value c sort.key) ka kb kc (sym (not_after_lem sort a b) ∙ h)
          (sym (not_after_lem sort b c) ∙ k)

  -- If the comparisons of numbers and of texts are lawful, and the values of the sorted column
  -- are all numbers or none is, then each row shown compares as not after every row below it.
  pub sorted_records-IsSorted :
      (kind : Bool) (s : State) (sort : SortState)
      → s.sort ≡ some sort
      → All (λ (r : ClientRecord). IsOfKind kind (sort_value r sort.key)) s.records
      → IsSorted (not_after rt sort) (sorted_records rt s)
  unfolding sorted_records filtered_records
  sorted_records-IsSorted kind s sort sorted uniform = rw sorted (
      sort_by-IsSorted (not_after rt sort)
        (λ (r : ClientRecord). IsOfKind kind (sort_value r sort.key))
        (λ a b _ _ h. le_total sort a b h)
        (λ a b c ka kb kc h k. le_trans kind sort a b c ka kb kc h k) _
        (All-keep _ _ s.records uniform))

-- A row without a value in the column never stands before one with a value, in either direction.
pub empty_last :
    (rt : Runtime) (sort : SortState) (a b : ClientRecord)
    → sort_value a sort.key ≡ none
    → sort_value b sort.key ≢ none
    → (not_after rt sort a b ≡ false) × (not_after rt sort b a ≡ true)
unfolding not_after compare_records compare_values
empty_last rt sort a b missing present = (ground arith, ground arith)
