-- ===== src/Mapping/Changes/Laws.antt =====
-- ColumnMappingReviewPage.tsx: the change summary says nothing exactly if nothing changed.
use tidybridge.Base.{
  Str, str_eq, str_eq_iff, str_eq_refl, Bool, true, false, not, ◌||◌, ◌≡◌, refl, sym, ◌∙◌, ◌↔◌,
  Option, none, some, List, [], ◌∷◌, ◌++◌, subst, arith, lookup, length, any, includes, All, inl,
  inr, Bool-cases,
}
use tidybridge.I18n.{Lang}
use tidybridge.Types.{FieldResolution}
use tidybridge.Records.Handlers.{add_id}
use tidybridge.Records.Selection.{includes-add_id}
use tidybridge.Mapping.Changes.{
  opt_eq, is_required, change_of, by_raw, push_change, entry_change, entry_changes, to_set,
  sets_differ, dedup_change, summarize_changes,
}

opt_eq_iff : (a b : Option Str) → (opt_eq a b ≡ true) ↔ (a ≡ b)
opt_eq_iff none none = ground arith
opt_eq_iff none (some b) = ground arith
opt_eq_iff (some a) none = ground arith
opt_eq_iff (some a) (some b) = ground (arith, str_eq_iff a b)

-- What a summary compares of two entries.
abbrev pub IsUnchanged : FieldResolution → FieldResolution → Type 0
IsUnchanged old entry =
    (old.target_field ≡ entry.target_field)
    × (old.type ≡ entry.type)
    × (is_required old ≡ is_required entry)

change_of-eq-none_iff :
    (lang : Lang) (old entry : FieldResolution)
    → (change_of lang old entry ≡ none) ↔ IsUnchanged old entry
unfolding change_of
change_of-eq-none_iff lang old entry =
    ground (arith, opt_eq_iff old.target_field entry.target_field, opt_eq_iff old.type entry.type)

-- Every entry with a counterpart in the old mapping is as it was.
abbrev pub AllUnchanged : List (Str × FieldResolution) → List FieldResolution → Type 0
AllUnchanged old new =
    All
      (λ (e : FieldResolution).
        (o : FieldResolution) → lookup e.raw_column old ≡ some o → IsUnchanged o e)
      new

entry_change-eq-none_iff :
    (lang : Lang) (found : Option FieldResolution) (entry : FieldResolution)
    → (entry_change lang found entry ≡ none)
      ↔ ((o : FieldResolution) → found ≡ some o → IsUnchanged o entry)
unfolding entry_change
entry_change-eq-none_iff lang none entry = (λ _ o h. absurd (ground arith), λ _. refl)
entry_change-eq-none_iff lang (some old) entry = (
  λ h o e.
      let same : old ≡ o = cc in
      subst (λ (q : FieldResolution). IsUnchanged q entry) same
        ((change_of-eq-none_iff lang old entry).0 h),
  λ h. (change_of-eq-none_iff lang old entry).1 (h old refl),
)

push_change-eq-nil_iff :
    (c : Option Str) (rest : List Str) → (push_change c rest ≡ []) ↔ ((c ≡ none) × (rest ≡ []))
push_change-eq-nil_iff none rest = ground arith
push_change-eq-nil_iff (some text) rest = ground arith

entry_changes-eq-nil_iff :
    (lang : Lang) (old : List (Str × FieldResolution)) (new : List FieldResolution)
    → (entry_changes lang old new ≡ []) ↔ AllUnchanged old new
unfolding entry_changes
entry_changes-eq-nil_iff lang old [] = (λ _. tt, λ _. refl)
entry_changes-eq-nil_iff lang old (e ∷ es) =
    let (to, from) = entry_changes-eq-nil_iff lang old es in
    let (here_to, here_from) = entry_change-eq-none_iff lang (lookup e.raw_column old) e in
    let (split, join) =
      push_change-eq-nil_iff (entry_change lang (lookup e.raw_column old) e)
        (entry_changes lang old es) in
    (λ h. (here_to (split h).0, to (split h).1), λ h. join (here_from h.0, from h.1))

includes-to_set :
    (set fields : List Str) (j : Str)
    → includes (to_set set fields) j ≡ (includes set j || includes fields j)
unfolding to_set includes
includes-to_set set [] j = ground arith
includes-to_set set (f ∷ fields) j =
    ground (arith, includes-to_set (add_id f set) fields j, includes-add_id set f j)

-- new Set(fields).has(j)
includes-set : (fields : List Str) (j : Str) → includes (to_set [] fields) j ≡ includes fields j
unfolding includes
includes-set fields j = includes-to_set [] fields j

no_other :
    (test : Str → Bool) (xs : List Str)
    → (any (λ f. not (test f)) xs ≡ false) ↔ ((f : Str) → includes xs f ≡ true → test f ≡ true)
unfolding includes
no_other test [] = (λ _ f h. cc, λ _. refl)
no_other test (x ∷ xs) =
    let (to, from) = no_other test xs in
    (
      λ h f k. elim (Bool-cases (str_eq x f)) [
        | inl same ↦ rw (← (str_eq_iff x f).0 same) (ground arith)
        | inr other ↦ to (ground arith) f (ground arith)
      ],
      λ h. ground (arith, h x, str_eq_refl x, from (λ f k. h f (ground arith))),
    )

-- The two key lists are one set, as the code tells: as many different names, and each old one
-- among the new ones.
abbrev pub IsSameSet : List Str → List Str → Type 0
IsSameSet old new =
    (length (to_set [] old) ≡ length (to_set [] new))
    × ((f : Str) → includes old f ≡ true → includes new f ≡ true)

dedup_change-eq-none_iff :
    (lang : Lang) (old new : List Str) → (dedup_change lang old new ≡ none) ↔ IsSameSet old new
unfolding dedup_change sets_differ
dedup_change-eq-none_iff lang old new =
    let (to, from) = no_other (includes (to_set [] new)) (to_set [] old) in
    (
      λ h.
          let subset = to (ground arith) in
          (ground arith, λ f k. sym (includes-set new f) ∙ subset f (includes-set old f ∙ k)),
      λ h.
          let none_missing =
            from (λ f k. includes-set new f ∙ h.1 f (sym (includes-set old f) ∙ k)) in
          ground (arith, h.0),
    )

append-eq-nil_iff : (xs ys : List Str) → (xs ++ ys ≡ []) ↔ ((xs ≡ []) × (ys ≡ []))
append-eq-nil_iff [] ys = ground arith
append-eq-nil_iff (x ∷ xs) ys = ground arith

-- The summary of a save is empty exactly if each column of the new mapping that the old one had
-- keeps its field, its type and whether it is required, and the key fields are the same set: as
-- many different ones, and each old one among the new.
pub summarize_changes-eq-nil_iff :
    (lang : Lang) (old new : List FieldResolution) (old_keys new_keys : List Str)
    → (summarize_changes lang old new old_keys new_keys ≡ [])
      ↔ (AllUnchanged (by_raw [] old) new × IsSameSet old_keys new_keys)
unfolding summarize_changes
summarize_changes-eq-nil_iff lang old new old_keys new_keys =
    let (split, join) =
      append-eq-nil_iff (entry_changes lang (by_raw [] old) new)
        (push_change (dedup_change lang old_keys new_keys) []) in
    let (entries_to, entries_from) = entry_changes-eq-nil_iff lang (by_raw [] old) new in
    let (keys_to, keys_from) = dedup_change-eq-none_iff lang old_keys new_keys in
    let (push_to, push_from) = push_change-eq-nil_iff (dedup_change lang old_keys new_keys) [] in
    (
      λ h. (entries_to (split h).0, keys_to (push_to (split h).1).0),
      λ h. join (entries_from h.0, push_from (keys_from h.1, refl)),
    )
