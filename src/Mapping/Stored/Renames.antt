-- ===== src/Mapping/Stored/Renames.antt =====
-- ColumnMappingReviewPage.tsx: where the values of a stored row go when its fields are renamed.
use tidybridge.Base.{
  Str, str_eq, str_eq_iff, str_eq_refl, false, ◌≡◌, ◌≢◌, refl, sym, ◌∙◌, Option, none, some, List,
  [], ◌∷◌, arith, if◌then◌else◌, lookup, insert, lookup-insert, lookup-remove, Option-cases, inl,
  inr, All, Bool-cases,
}
use tidybridge.Mapping.Stored.{Fields, rename_field, rename_fields}

lookup-rename_field :
    (old new j : Str) (fields : Fields)
    → old ≢ new
    → lookup j (rename_field old new fields) ≡ (
        if str_eq old j
        then none
        else if str_eq new j
        then elim (lookup old fields) [ none ↦ lookup j fields | some v ↦ some v ]
        else lookup j fields)
unfolding rename_field
lookup-rename_field old new j fields differ = elim (Option-cases (lookup old fields)) [
  | inl absent ↦ rw absent (ground (arith, str_eq_iff old j))
  | inr (v, there) ↦ rw there (
      ground (
        arith,
        lookup-remove old j (insert new v fields),
        lookup-insert new j v fields,
        str_eq_iff old j,
      ))
]

-- Two renames that do not touch one another.
abbrev pub IsApart : Str × Str → Str × Str → Type 0
IsApart (o, n) (o', n') =
    (str_eq n o' ≡ false) × (str_eq n' n ≡ false) × (str_eq o' o ≡ false) × (str_eq n' o ≡ false)

-- Every new name is free: no field has it, and no other rename takes or frees it.
abbrev pub IsFree : List (Str × Str) → Fields → Type 0
IsFree [] fields = Unit
IsFree ((o, n) ∷ renames) fields =
    (str_eq o n ≡ false)
    × (lookup n fields ≡ none)
    × All (IsApart (o, n)) renames
    × IsFree renames fields

-- What a row should hold under a name once all renames are made.
pub renamed : List (Str × Str) → Fields → Str → Option (Option Str)
renamed [] fields j = lookup j fields
renamed ((o, n) ∷ renames) fields j =
    if str_eq o j then none else if str_eq n j then lookup o fields else renamed renames fields j

renamed_apart :
    (o n : Str) (renames : List (Str × Str)) (fields : Fields)
    → All (IsApart (o, n)) renames
    → (renamed renames fields o ≡ lookup o fields) × (renamed renames fields n ≡ lookup n fields)
unfolding renamed
renamed_apart o n [] fields h = (refl, refl)
renamed_apart o n ((o', n') ∷ renames) fields (p, h) =
    let ih = renamed_apart o n renames fields h in
    (ground arith, ground (arith, str_eq_iff o' n, str_eq_iff n o'))

module _ (o n : Str) (fields : Fields) (differ : str_eq o n ≡ false)
    (free : lookup n fields ≡ none) where
  step :
      (j : Str)
      → lookup j (rename_field o n fields)
        ≡ (if str_eq o j then none else if str_eq n j then lookup o fields else lookup j fields)
  step j =
      lookup-rename_field o n j fields (λ e. ground (arith, str_eq_iff o n))
      ∙ ground (arith, str_eq_iff n j)

  step_away :
      (j : Str)
      → str_eq o j ≡ false
      → str_eq n j ≡ false
      → lookup j (rename_field o n fields) ≡ lookup j fields
  step_away j h k = ground (arith, step j)

  renamed_step :
      (renames : List (Str × Str)) (j : Str)
      → All (IsApart (o, n)) renames
      → str_eq o j ≡ false
      → str_eq n j ≡ false
      → renamed renames (rename_field o n fields) j ≡ renamed renames fields j
  unfolding renamed
  renamed_step [] j h p q = step_away j p q
  renamed_step ((o', n') ∷ renames) j (a, h) p q =
      ground (arith, renamed_step renames j h p q, step_away o', str_eq_iff o' o, str_eq_iff o o')

  IsFree-step :
      (renames : List (Str × Str))
      → All (IsApart (o, n)) renames
      → IsFree renames fields
      → IsFree renames (rename_field o n fields)
  IsFree-step [] a f = tt
  IsFree-step ((o', n') ∷ renames) (a, rest) (d, l, b, f) = (
    d,
    step_away n' (ground (arith, str_eq_iff o n', str_eq_iff n' o))
          (ground (arith, str_eq_iff n n', str_eq_iff n' n))
        ∙ l,
    b,
    IsFree-step renames rest f,
  )

-- If every new name is free, in the row and among the other renames, each renamed field's value
-- stands under its new name, the old name is gone, and every other field is as it was.
pub lookup-rename_fields :
    (renames : List (Str × Str)) (fields : Fields) (j : Str)
    → IsFree renames fields
    → lookup j (rename_fields renames fields) ≡ renamed renames fields j
unfolding rename_fields renamed
lookup-rename_fields [] fields j h = refl
lookup-rename_fields ((o, n) ∷ renames) fields j (d, l, a, f) =
    lookup-rename_fields renames (rename_field o n fields) j
      (IsFree-step o n fields d l renames a f)
    ∙ elim (Bool-cases (str_eq o j)) [
      | inl old ↦
          let same : o ≡ j = (str_eq_iff o j).0 old in
          rw (old, ← same)
            ((renamed_apart o n renames (rename_field o n fields) a).0
              ∙ (step o n fields d l o ∙ rw (str_eq_refl o)))
      | inr not_old ↦ elim (Bool-cases (str_eq n j)) [
        | inl new ↦
            let same : n ≡ j = (str_eq_iff n j).0 new in
            rw (not_old, new)
              (rw (← same) (
                (renamed_apart o n renames (rename_field o n fields) a).1
                ∙ (step o n fields d l n ∙ rw (d, str_eq_refl n))))
        | inr not_new ↦
            rw (not_old, not_new) (renamed_step o n fields d l renames j a not_old not_new)
      ]
    ]

-- Exchanging the names of two different fields that a row has loses a value: the first one's
-- value stays where it was, and the other name and its value are gone.
pub rename_fields-exchange :
    (a b : Str) (fields : Fields) (v w : Option Str)
    → a ≢ b
    → lookup a fields ≡ some v
    → lookup b fields ≡ some w
    → (lookup a (rename_fields ((a, b) ∷ (b, a) ∷ []) fields) ≡ some v)
      × (lookup b (rename_fields ((a, b) ∷ (b, a) ∷ []) fields) ≡ none)
unfolding rename_fields
rename_fields-exchange a b fields v w differ va wb =
    let first = lookup-rename_field a b b fields differ in
    let second = lookup-rename_field b a a (rename_field a b fields) (λ e. differ (sym e)) in
    (
      ground (arith, first, second, str_eq_iff a b, str_eq_iff b a, str_eq_refl a, str_eq_refl b),
      ground (
        arith,
        lookup-rename_field b a b (rename_field a b fields) (λ e. differ (sym e)),
        str_eq_refl b,
      ),
    )
