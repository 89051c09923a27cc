-- ===== src/FieldNames/Order.antt =====
-- lib/fieldNames.ts: the order in which a record's fields are shown.
use tidybridge.Base.{
  Str, str_eq, Bool, true, false, not, ◌≡◌, refl, ap, inl, inr, List, [], ◌∷◌, ◌++◌, arith, leb,
  All, keep, sort_by, insert_by, Bool-cases, All-append, All-keep, All-map_imp, keep-All, ◌∙◌, sym,
}
use tidybridge.FieldNames.{schema_order, rank_in, order_field_names}

-- The names equal to the order's first, then those equal to its second, and so on; at the end those
-- that are not in the order, as they came.
pub in_order_of : List Str → List Str → List Str
in_order_of [] names = names
in_order_of (s ∷ order) names =
    keep (str_eq s) names ++ in_order_of order (keep (λ n. not (str_eq s n)) names)

by_rank : List Str → Str → Str → Bool
by_rank order a b = leb (rank_in order a) (rank_in order b)

abbrev IsOther : Str → Str → Type 0
IsOther s n = str_eq s n ≡ false

by_rank-first :
    (s : Str) (order : List Str) (x y : Str) → str_eq s x ≡ true → by_rank (s ∷ order) x y ≡ true
unfolding by_rank rank_in
by_rank-first s order x y same = ground arith

by_rank-later :
    (s : Str) (order : List Str) (x y : Str)
    → str_eq s x ≡ false
    → str_eq s y ≡ true
    → by_rank (s ∷ order) x y ≡ false
unfolding by_rank rank_in
by_rank-later s order x y other same = ground arith

by_rank-rest :
    (s : Str) (order : List Str) (x y : Str)
    → str_eq s x ≡ false
    → str_eq s y ≡ false
    → by_rank (s ∷ order) x y ≡ by_rank order x y
unfolding by_rank rank_in
by_rank-rest s order x y other differ = ground arith

insert_by-smallest :
    (le : Str → Str → Bool) (x : Str) (ys : List Str)
    → ((y : Str) → le x y ≡ true)
    → insert_by le x ys ≡ x ∷ ys
unfolding insert_by
insert_by-smallest le x [] h = refl
insert_by-smallest le x (y ∷ ys) h = rw (h y) refl

module _ (s : Str) (order : List Str) (x : Str) (other : str_eq s x ≡ false) where
  -- A name of a later rank goes behind all those equal to the first.
  insert_by-first :
      (names zs : List Str)
      → insert_by (by_rank (s ∷ order)) x (keep (str_eq s) names ++ zs)
        ≡ keep (str_eq s) names ++ insert_by (by_rank (s ∷ order)) x zs
  unfolding insert_by
  insert_by-first [] zs = refl
  insert_by-first (n ∷ names) zs = elim (Bool-cases (str_eq s n)) [
    | inl same ↦
        rw (same, by_rank-later s order x n other same)
          (ap (λ ns. n ∷ ns) (insert_by-first names zs))
    | inr differ ↦ rw differ (insert_by-first names zs)
  ]

  -- Among the other names the first of the order does not count.
  insert_by-rest :
      (zs : List Str)
      → All (IsOther s) zs
      → insert_by (by_rank (s ∷ order)) x zs ≡ insert_by (by_rank order) x zs
  unfolding insert_by
  insert_by-rest [] h = refl
  insert_by-rest (z ∷ zs) (differ, h) =
      rw (by_rank-rest s order x z other differ, insert_by-rest zs h) refl

module _ (s : Str) where
  in_order_of-All :
      (order names : List Str) → All (IsOther s) names → All (IsOther s) (in_order_of order names)
  unfolding in_order_of
  in_order_of-All [] names h = h
  in_order_of-All (s' ∷ order) names h =
      All-append (IsOther s) _ _ (All-keep (IsOther s) (str_eq s') names h)
        (in_order_of-All order _ (All-keep (IsOther s) (λ n. not (str_eq s' n)) names h))

  others-All : (names : List Str) → All (IsOther s) (keep (λ n. not (str_eq s n)) names)
  others-All names =
      All-map_imp _ (IsOther s) _ (λ n h. ground arith) (keep-All (λ n. not (str_eq s n)) names)

by_rank-none : (x y : Str) → by_rank [] x y ≡ true
unfolding by_rank rank_in
by_rank-none x y = refl

in_order_of-nil : (order : List Str) → in_order_of order [] ≡ []
unfolding in_order_of
in_order_of-nil [] = refl
in_order_of-nil (s ∷ order) = in_order_of-nil order

-- One more name takes its place among those that are in order.
insert_by-in_order_of :
    (order : List Str) (x : Str) (names : List Str)
    → insert_by (by_rank order) x (in_order_of order names) ≡ in_order_of order (x ∷ names)
unfolding in_order_of
insert_by-in_order_of [] x names = insert_by-smallest (by_rank []) x names (by_rank-none x)
insert_by-in_order_of (s ∷ order) x names = elim (Bool-cases (str_eq s x)) [
  | inl same ↦
      rw same (insert_by-smallest (by_rank (s ∷ order)) x _ (λ y. by_rank-first s order x y same))
  | inr other ↦ rw other (
      insert_by-first s order x other names _
      ∙ ap (λ ns. keep (str_eq s) names ++ ns)
          (insert_by-rest s order x other _ (in_order_of-All s order _ (others-All s names))
            ∙ insert_by-in_order_of order x _))
]

-- The names that are shown are those of the record, in the schema's order, each as often as the
-- record has it, and behind them those that are not in the schema, in the order in which they came.
pub order_field_names_lem :
    (names : List Str) → order_field_names names ≡ in_order_of schema_order names
unfolding order_field_names sort_by by_rank
order_field_names_lem [] = sym (in_order_of-nil schema_order)
order_field_names_lem (n ∷ names) =
    ap (insert_by (by_rank schema_order) n) (order_field_names_lem names)
    ∙ insert_by-in_order_of schema_order n names
