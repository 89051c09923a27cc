-- ===== src/RecordDetail/Saving.antt =====
-- RecordDetailPage.tsx: the whole of a save, on every answer.
use tidybridge.Base.{
  Str, true, false, ◌≡◌, ◌≢◌, refl, ◌⊎◌, inl, inr, Option, none, some, List, [], ◌∷◌, truthy,
}
use tidybridge.I18n.{Lang}
use tidybridge.Types.{ClientRecord}
use tidybridge.Client.Errors.{Result, ok, fail, Failure}
use tidybridge.RecordDetail.{
  DetailPage, Statuses, changed_fields, save_changed, save_edits_begin, save_edits_answer,
  save_edits_end, save_failed, save_begun, save_answered, save_edits,
}

-- The edit was made: the page shows the answer, and no longer the form.
abbrev pub IsSaved : Result ClientRecord → DetailPage → Type 0
IsSaved answer s =
    (updated : ClientRecord) × (answer ≡ ok updated)
    × (s.shown ≡ some updated)
    × (s.editing ≡ false)
    × (s.saving ≡ false)

-- The edit was refused: the page says why and still has the record, the form and the draft.
abbrev pub IsKept : Result ClientRecord → DetailPage → DetailPage → Type 0
IsKept answer before s =
    (e : Failure) × (answer ≡ fail e)
    × (s.save_error ≢ none)
    × (s.shown ≡ before.shown)
    × (s.editing ≡ before.editing)
    × (s.draft_fields ≡ before.draft_fields)
    × (s.saving ≡ false)

save_answered_cases :
    (lang : Lang) (answer : Result ClientRecord) (statuses : Result Statuses) (s : DetailPage)
    → IsSaved answer (save_answered lang answer statuses s)
      ⊎ IsKept answer s (save_answered lang answer statuses s)
unfolding save_answered save_edits_answer save_edits_end save_failed
save_answered_cases lang (ok updated) (ok statuses) s = inl (updated, refl, refl, refl, refl)
save_answered_cases lang (ok updated) (fail e) s = inl (updated, refl, refl, refl, refl)
save_answered_cases lang (fail e) statuses s = inr (e, refl, (λ h. cc), refl, refl, refl, refl)

begin_shown :
    (id : Option Str) (s : DetailPage) (r : ClientRecord)
    → truthy id ≡ true
    → s.shown ≡ some r
    → save_edits_begin id s ≡ save_changed (changed_fields r.fields s.draft_fields) s
unfolding save_edits_begin
begin_shown id s r given there = simp (given, there)

module _ (lang : Lang) (answer : List (Str × Str) → Result ClientRecord)
    (statuses : Result Statuses) (s : DetailPage) where
  save_begun_cases :
      (changed : List (Str × Str))
      → ((changed ≡ [])
          × (save_begun lang answer statuses (save_changed changed s)
              ≡ record s { editing = false }))
        ⊎ ((changed ≢ [])
            × (IsSaved (answer changed) (save_begun lang answer statuses (save_changed changed s))
                ⊎ IsKept
                    (answer changed)
                    s
                    (save_begun lang answer statuses (save_changed changed s))))
  unfolding save_begun save_changed
  save_begun_cases [] = inl (refl, refl)
  save_begun_cases (c ∷ cs) = inr (
    (λ h. cc),
    save_answered_cases lang (answer (c ∷ cs)) statuses
        (record s { saving = true; save_error = none }),
  )

-- A save of a shown record: if no field was changed, nothing is sent and only the form closes; else
-- the changed fields are sent, and either the page shows the answer in place of the form, also if
-- the statuses that are asked for next fail, or it has an error and keeps record, form and draft.
pub save_edits_cases :
    (lang : Lang) (id : Option Str) (answer : List (Str × Str) → Result ClientRecord)
    (statuses : Result Statuses) (s : DetailPage) (r : ClientRecord)
    → truthy id ≡ true
    → s.shown ≡ some r
    → ((changed_fields r.fields s.draft_fields ≡ [])
        × (save_edits lang id answer statuses s ≡ record s { editing = false }))
      ⊎ ((changed_fields r.fields s.draft_fields ≢ [])
          × (IsSaved
                (answer (changed_fields r.fields s.draft_fields))
                (save_edits lang id answer statuses s)
              ⊎ IsKept
                  (answer (changed_fields r.fields s.draft_fields))
                  s
                  (save_edits lang id answer statuses s)))
unfolding save_edits
save_edits_cases lang id answer statuses s r given there =
    rw (begin_shown id s r given there)
      (save_begun_cases lang answer statuses s (changed_fields r.fields s.draft_fields))
