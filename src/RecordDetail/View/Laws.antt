-- ===== src/RecordDetail/View/Laws.antt =====
-- RecordDetailPage.tsx and RecordsPage.tsx: the two pages agree on what is to be reviewed.
use tidybridge.Base.{◌≡◌, ◌↔◌, refl, true, Bool-cases, inl, inr, Option, some, List, truthy, Str}
use tidybridge.I18n.{Lang}
use tidybridge.Types.{ClientRecord, Issue}
use tidybridge.FieldNames.{Formats}
use tidybridge.Records.{status_label, needs_review}
use tidybridge.RecordDetail.{DetailPage}
use tidybridge.RecordDetail.View.{approves, IssueBox, Button, approval, issue_box}

-- The box of the issues is there, with the button that approves.
abbrev pub CanApprove : Option IssueBox → Type 0
CanApprove box =
    (b : IssueBox) × (button : Button) × (box ≡ some b)
    × (b.approval ≡ approves button)
    × (b.held ≡ true)

module _ (formats : Formats) (stamp : Lang → Str → Str) (lang : Lang) where
  -- For a record that comes with its list of issues: its page offers to approve it exactly if the
  -- table of records shows it as one that needs review.
  pub CanApprove-issue_box :
      (s : DetailPage) (r : ClientRecord) (issues : List Issue)
      → r.issues ≡ some issues
      → CanApprove (issue_box formats stamp lang s r) ↔ (status_label r ≡ needs_review)
  unfolding issue_box approval status_label
  CanApprove-issue_box s r issues listed = elim (Bool-cases r.has_issues) [
    | inl flagged ↦ elim (Bool-cases (truthy r.approved_at)) [
      | inl past ↦ rw (listed, flagged, past) ((λ c. cc), λ h. cc)
      | inr held ↦ rw (listed, flagged, held) ((λ c. refl), λ h. (_, _, refl, refl, refl))
    ]
    | inr fine ↦ rw (listed, fine) ((λ c. cc), λ h. cc)
  ]
