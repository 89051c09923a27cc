-- ===== src/RecordDetail/Edits.antt =====
-- RecordDetailPage.tsx: what an edit sends, and what the record then shows.
use tidybridge.Base.{
  All, keep-All, All-map_imp, ◌≢◌, Str, str_eq, str_eq_iff, true, ◌≡◌, refl, ap, ◌∙◌, Option, none,
  some, List, [], ◌∷◌, arith, if◌then◌else◌, lookup, insert, lookup-insert, keep, Bool-cases, inl,
  inr, map, or_else,
}
use tidybridge.Types.{ClientRecord}
use tidybridge.RecordDetail.{
  field_text, is_changed, changed_fields, text_of, edited, start_editing, edit_field, DetailPage,
}

-- A partial update: only the keys that are sent are changed.
pub patched : List (Str × Str) → List (Str × Option Str) → List (Str × Option Str)
patched [] fields = fields
patched ((k, v) ∷ sent) fields = patched sent (insert k (some v) fields)

-- No key stands twice.
abbrev pub IsObject : {V : Type 0} → List (Str × V) → Type 0
IsObject [] = Unit
IsObject ((k, v) ∷ rest) = (lookup k rest ≡ none) × IsObject rest

field_text-insert :
    (k j v : Str) (fields : List (Str × Option Str))
    → field_text j (insert k (some v) fields) ≡ (if str_eq k j then v else field_text j fields)
unfolding field_text
field_text-insert k j v fields = ground (arith, lookup-insert k j (some v) fields)

field_text-patched :
    (sent : List (Str × Str)) (fields : List (Str × Option Str)) (j : Str)
    → IsObject sent
    → field_text j (patched sent fields) ≡ or_else (lookup j sent) (field_text j fields)
unfolding patched lookup
field_text-patched [] fields j h = refl
field_text-patched ((k, v) ∷ sent) fields j (once, h) =
    field_text-patched sent (insert k (some v) fields) j h ∙ elim (Bool-cases (str_eq k j)) [
      | inl same ↦
          let twin : k ≡ j = (str_eq_iff k j).0 same in
          let last : lookup j sent ≡ none = rw twin at once in
          rw (same, last, field_text-insert k j v fields, same)
      | inr other ↦ rw (other, field_text-insert k j v fields, other)
    ]

-- What is sent for a name: the draft's text, if the record's differs from it.
sent_for : Option Str → Str → Option Str
sent_for none old = none
sent_for (some v) old = if str_eq old v then none else some v

lookup-changed_fields :
    (fields : List (Str × Option Str)) (draft : List (Str × Str)) (j : Str)
    → IsObject draft
    → lookup j (changed_fields fields draft) ≡ sent_for (lookup j draft) (field_text j fields)
unfolding changed_fields lookup sent_for
lookup-changed_fields fields [] j h = refl
lookup-changed_fields fields ((k, v) ∷ draft) j (once, h) =
    let ih = lookup-changed_fields fields draft j h in
    elim (Bool-cases (str_eq k j)) [
      | inl same ↦
          let twin : k ≡ j = (str_eq_iff k j).0 same in
          let last : lookup j draft ≡ none = rw twin at once in
          let unsent : lookup j (keep (is_changed fields) draft) ≡ none = ih ∙ rw last refl in
          let text : field_text k fields ≡ field_text j fields =
            ap (λ i. field_text i fields) twin in
          ground arith
      | inr other ↦ ground arith
    ]

changed_fields-IsObject :
    (fields : List (Str × Option Str)) (draft : List (Str × Str))
    → IsObject draft
    → IsObject (changed_fields fields draft)
unfolding changed_fields sent_for
changed_fields-IsObject fields [] h = tt
changed_fields-IsObject fields ((k, v) ∷ draft) (once, h) =
    let ih = changed_fields-IsObject fields draft h in
    let unsent = lookup-changed_fields fields draft k h in
    elim (Bool-cases (is_changed fields (k, v))) [
      | inl changed ↦ rw changed (unsent ∙ rw once refl, ih)
      | inr same ↦ rw same ih
    ]

or_else-sent_for :
    (found : Option Str) (old : Str) → or_else (sent_for found old) old ≡ or_else found old
unfolding sent_for
or_else-sent_for none old = refl
or_else-sent_for (some v) old = ground (arith, str_eq_iff old v)

changed_fields-All :
    (fields : List (Str × Option Str)) (draft : List (Str × Str))
    → All (λ (p : Str × Str). field_text p.0 fields ≢ p.1) (changed_fields fields draft)
unfolding changed_fields
changed_fields-All fields draft =
    All-map_imp (λ (p : Str × Str). is_changed fields p ≡ true) _ (keep (is_changed fields) draft)
      (λ p h e. ground (arith, str_eq_iff (field_text p.0 fields) p.1))
      (keep-All (is_changed fields) draft)

-- Every field that is sent differs from what the record shows; and once the record is patched with
-- what is sent, it shows the draft's text in each field of the draft, and in every other field
-- what it showed before, if no name stands twice in the draft.
pub field_text-changed_fields :
    (fields : List (Str × Option Str)) (draft : List (Str × Str)) (j : Str)
    → IsObject draft
    → (field_text j (patched (changed_fields fields draft) fields)
        ≡ or_else (lookup j draft) (field_text j fields))
      × All (λ (p : Str × Str). field_text p.0 fields ≢ p.1) (changed_fields fields draft)
field_text-changed_fields fields draft j h = (
  field_text-patched (changed_fields fields draft) fields j (changed_fields-IsObject fields draft h)
      ∙ (ap (λ found. or_else found (field_text j fields)) (lookup-changed_fields fields draft j h)
          ∙ or_else-sent_for (lookup j draft) (field_text j fields)),
  changed_fields-All fields draft,
)

IsObject-insert :
    (k v : Str) (draft : List (Str × Str)) → IsObject draft → IsObject (insert k v draft)
unfolding insert lookup
IsObject-insert k v [] h = (refl, tt)
IsObject-insert k v ((i, w) ∷ draft) (once, h) = elim (Bool-cases (str_eq i k)) [
  | inl same ↦ let twin : i ≡ k = (str_eq_iff i k).0 same in rw same (once, h)
  | inr other ↦ rw other (
    ground (arith, lookup-insert k i v draft, str_eq_iff i k, str_eq_iff k i),
    IsObject-insert k v draft h,
  )
]

lookup-text_of :
    (fields : List (Str × Option Str)) (k : Str)
    → lookup k fields ≡ none
    → lookup k (map text_of fields) ≡ none
unfolding lookup
lookup-text_of [] k h = refl
lookup-text_of ((i, v) ∷ fields) k h = ground (arith, lookup-text_of fields k)

text_of-IsObject :
    (fields : List (Str × Option Str)) → IsObject fields → IsObject (map text_of fields)
text_of-IsObject [] h = tt
text_of-IsObject ((k, v) ∷ fields) (once, h) =
    (lookup-text_of fields k once, text_of-IsObject fields h)

-- The edits that a user types, one after another.
pub typed : List (Str × Str) → DetailPage → DetailPage
typed [] s = s
typed ((k, v) ∷ edits) s = typed edits (edit_field k v s)

typed-IsObject :
    (edits : List (Str × Str)) (s : DetailPage)
    → IsObject s.draft_fields
    → IsObject (typed edits s).draft_fields
unfolding typed edit_field
typed-IsObject [] s h = h
typed-IsObject ((k, v) ∷ edits) s h =
    typed-IsObject edits (edit_field k v s) (IsObject-insert k v s.draft_fields h)

started_draft :
    (s : DetailPage) (r : ClientRecord)
    → s.shown ≡ some r
    → (start_editing s).draft_fields ≡ map text_of r.fields
unfolding start_editing edited
started_draft s r there = ap (λ o. (edited o s).draft_fields) there

-- From the record's fields on, whatever is typed, no name stands twice in the draft.
pub draft-IsObject :
    (edits : List (Str × Str)) (s : DetailPage) (r : ClientRecord)
    → s.shown ≡ some r
    → IsObject r.fields
    → IsObject (typed edits (start_editing s)).draft_fields
draft-IsObject edits s r there h =
    typed-IsObject edits (start_editing s)
      (rw (started_draft s r there) (text_of-IsObject r.fields h))
