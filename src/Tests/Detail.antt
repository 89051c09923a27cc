-- ===== src/Tests/Detail.antt =====
-- RecordDetailPage.tsx at concrete inputs.
use tidybridge.Base.{
  Str, js, str_eq, lookup, ◌≡◌, ◌≢◌, refl, ◌⊎◌, ◌↔◌, none, some, List, [], ◌∷◌, All, or_else, true,
  false,
}
use tidybridge.I18n.{Lang, spanish}
use tidybridge.FieldNames.{Formats}
use tidybridge.Records.{status_label, needs_review}
use tidybridge.RecordDetail.View.{issue_box}
use tidybridge.RecordDetail.View.Laws.{CanApprove, CanApprove-issue_box}
use tidybridge.Types.{ClientRecord}
use tidybridge.Client.Errors.{Result, ok, fail, other_error}
use tidybridge.RecordDetail.{DetailPage, Statuses, field_text, changed_fields, save_edits}
use tidybridge.RecordDetail.Edits.{IsObject, patched, field_text-changed_fields}
use tidybridge.RecordDetail.Saving.{IsSaved, IsKept, save_edits_cases}
use tidybridge.Tests.Samples.{ana, luis}

abbrev draft : List (Str × Str)
draft = (js "full_name", js "Ana Ruiz") ∷ (js "amount", js "10") ∷ []

draft_distinct : IsObject draft
unfolding lookup str_eq js
draft_distinct = (refl, (refl, tt))

field_text-changed_fields_example :
    (field_text (js "full_name") (patched (changed_fields ana.fields draft) ana.fields)
      ≡ or_else (lookup (js "full_name") draft) (field_text (js "full_name") ana.fields))
    × All (λ (p : Str × Str). field_text p.0 ana.fields ≢ p.1) (changed_fields ana.fields draft)
field_text-changed_fields_example =
    field_text-changed_fields ana.fields draft (js "full_name") draft_distinct

abbrev shown : DetailPage
shown = record {
  shown = some ana;
  webhooks = [];
  webhook_status = none;
  provisioning = [];
  provisioning_status = none;
  loading = false;
  error = none;
  confirming_delete = false;
  editing = true;
  draft_fields = draft;
  saving = false;
  save_error = none;
  replaying = false;
  replay_error = none;
  replaying_provisioning = false;
  provisioning_replay_error = none;
  approving = false;
  approve_error = none;
  alerts = [];
}

abbrev accepting : List (Str × Str) → Result ClientRecord
accepting changed = ok ana

abbrev no_statuses : Result Statuses
no_statuses = fail other_error

abbrev saved : DetailPage
saved = save_edits spanish (some (js "r1")) accepting no_statuses shown

save_edits_cases_example :
    ((changed_fields ana.fields draft ≡ []) × (saved ≡ record shown { editing = false }))
    ⊎ ((changed_fields ana.fields draft ≢ [])
        × (IsSaved (accepting (changed_fields ana.fields draft)) saved
            ⊎ IsKept (accepting (changed_fields ana.fields draft)) shown saved))
unfolding js
save_edits_cases_example =
    save_edits_cases spanish (some (js "r1")) accepting no_statuses shown ana refl refl

abbrev edits : List (Str × Str)
edits = (js "amount", js "12") ∷ (js "amount", js "120") ∷ []

ana_distinct : IsObject ana.fields
unfolding lookup str_eq js
ana_distinct = (refl, (refl, tt))

abbrev plain_formats : Formats
plain_formats = record { upper = λ c. c ∷ []; money = λ lang s. s; day = λ lang s. s }

abbrev stamp : Lang → Str → Str
stamp lang time = time

abbrev unclear : ClientRecord
unclear = record luis { issues = some [] }

CanApprove-issue_box_example :
    CanApprove (issue_box plain_formats stamp spanish shown unclear)
    ↔ (status_label unclear ≡ needs_review)
CanApprove-issue_box_example =
    CanApprove-issue_box plain_formats stamp spanish shown unclear [] refl
