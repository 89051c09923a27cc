-- ===== src/RecordDetail/View.antt =====
-- frontend/src/pages/RecordDetailPage.tsx: what the page shows, without its markup. `stamp` is
-- toLocaleString of a time, and `formats` what FieldNames.antt takes from JavaScript.
pub mod Laws
use tidybridge.Base.{
  ℕ, Str, js, str_eq, Bool, true, false, not, ◌&&◌, Option, none, some, List, [], ◌∷◌,
  if◌then◌else◌, ◌==◌, ltb, map, truthy, or_else, lookup,
}
use tidybridge.I18n.{Lang, t, num, str}
use tidybridge.Types.{
  Issue, ClientRecord, WebhookDelivery, WebhookJobStatus, ProvisioningAttempt,
  ProvisioningJobStatus, JobStatus, pending, awaiting_review, done, skipped_exists, dead,
  not_configured,
}
use tidybridge.ServerText.{translate_server_text}
use tidybridge.FieldNames.{Formats, display_field_name, format_field_value, order_field_names}
use tidybridge.Client.Request.{Health}
use tidybridge.RecordDetail.{DetailPage, show_webhooks, show_provisioning}

abbrev text : Lang → Str → Str
text lang key = t lang key []

-- attempt_number && attempt_number > 1 ? retryingAttempt : first
abbrev pending_text : Lang → Option ℕ → Str → Str
pending_text lang attempt first = elim attempt [
  | none ↦ first
  | some n ↦ if ltb 1 n then t lang (js "retryingAttempt") ((js "n", num n) ∷ []) else first
]

-- The type of a webhook's status has no skipped_exists; it would be shown as pending.
unfoldable pub webhook_badge : Lang → Option WebhookJobStatus → Option Str
webhook_badge lang none = none
webhook_badge lang (some job) = elim job.status [
  | not_configured ↦ none
  | dead ↦ some (text lang (js "deliveryFailedPermanently"))
  | done ↦ some (text lang (js "delivered"))
  | awaiting_review ↦ some (text lang (js "awaitingReview"))
  | pending ↦ some (pending_text lang job.attempt_number (text lang (js "deliveryPending")))
  | skipped_exists ↦ some (pending_text lang job.attempt_number (text lang (js "deliveryPending")))
]

unfoldable pub provisioning_badge : Lang → Option ProvisioningJobStatus → Option Str
provisioning_badge lang none = none
provisioning_badge lang (some job) = elim job.status [
  | not_configured ↦ none
  | dead ↦ some (text lang (js "provisioningFailedPermanently"))
  | done ↦ some (text lang (js "provisioned"))
  | skipped_exists ↦ some (text lang (js "alreadyExisted"))
  | awaiting_review ↦ some (text lang (js "awaitingReview"))
  | pending ↦ some (pending_text lang job.attempt_number (text lang (js "provisioningPending")))
]

-- A button: its text, and whether it is disabled.
abbrev pub Button : Type 0
Button = Str × Bool

-- The buttons beside the title.
unfoldable pub title_buttons : Lang → DetailPage → List Button
title_buttons lang s =
    if s.editing
    then (text lang (js "cancel"), s.saving)
      ∷ (text lang (if s.saving then js "saving" else js "saveChanges"), s.saving)
      ∷ []
    else (text lang (js "edit"), false) ∷ (text lang (js "delete"), false) ∷ []

-- What stands beside the heading of the issues: when the record was approved, or the button.
pub data Approval : Type 0 where
  approved_on : Str → Approval
  approves : Button → Approval

pub record IssueBox : Type 0 where
  pub approval : Approval
  pub held : Bool
  pub error : Option Str
  pub lines : List (Str × Str)

-- A row of the table of attempts.
pub record AttemptRow : Type 0 where
  pub attempt : ℕ
  pub attempted : Str
  pub url : Option Str
  pub status_code : Option ℕ
  pub result : Str
  pub hint : Option Str

pub record AttemptBox : Type 0 where
  pub badge : Option Str
  pub replay : Button
  pub error : Option Str
  pub remote : Option Str
  pub attempts : List AttemptRow

-- A field: its key and label, and its value.
pub data FieldList : Type 0 where
  inputs : List (Str × Str × Str) → FieldList
  values : List (Str × Str) → FieldList

pub record Shown : Type 0 where
  pub title : Str
  pub buttons : List Button
  pub save_error : Option Str
  pub fields : FieldList
  pub source_file : Str
  pub imported : Str
  pub issues : Option IssueBox
  pub webhooks : Option AttemptBox
  pub provisioning : Option AttemptBox
  pub delete_dialog : Option (Str × Str)

pub data Content : Type 0 where
  waits : Content
  says : Str → Content
  empty : Content
  shows : Shown → Content

abbrev value_of : List (Str × Option Str) → Str → Option Str
value_of fields key = elim (lookup key fields) [ none ↦ none | some v ↦ v ]

-- record.fields.full_name ?? record.fields.supplier_name ?? t("unnamedRecord")
unfoldable pub record_title : Lang → ClientRecord → Str
record_title lang r =
    or_else (value_of r.fields (js "full_name"))
      (or_else (value_of r.fields (js "supplier_name")) (text lang (js "unnamedRecord")))

module _ (formats : Formats) (stamp : Lang → Str → Str) (lang : Lang) where
  unfoldable pub value_list : List (Str × Option Str) → FieldList
  value_list fields = values (
      map
        (λ key. (
          display_field_name formats lang key,
          or_else (format_field_value formats lang key (value_of fields key)) (js "—"),
        ))
        (order_field_names (map (λ field. field.0) fields)))

  unfoldable pub input_list : List (Str × Str) → FieldList
  input_list draft = inputs (
      map (λ key. (key, display_field_name formats lang key, or_else (lookup key draft) []))
        (order_field_names (map (λ field. field.0) draft)))

  abbrev issue_line : Issue → Str × Str
  issue_line i = (display_field_name formats lang i.field, translate_server_text lang i.issue)

  unfoldable pub approval : DetailPage → ClientRecord → Approval
  approval s r =
      if truthy r.approved_at
      then approved_on
          (t lang (js "approvedOn") ((js "date", str (stamp lang (or_else r.approved_at []))) ∷ []))
      else approves (text lang (if s.approving then js "approving" else js "approve"), s.approving)

  unfoldable pub issue_box : DetailPage → ClientRecord → Option IssueBox
  issue_box s r = elim r.issues [
    | none ↦ none
    | some issues ↦
        if r.has_issues
        then some (record {
          approval = approval s r;
          held = not (truthy r.approved_at);
          error = s.approve_error;
          lines = map issue_line issues;
        })
        else none
  ]

  unfoldable pub webhook_row : WebhookDelivery → AttemptRow
  webhook_row w = record {
    attempt = w.attempt_number;
    attempted = stamp lang w.attempted_at;
    url = some w.url;
    status_code = w.status_code;
    result = text lang (if w.success then js "delivered" else js "failed");
    hint = if w.success then none else w.error;
  }

  unfoldable pub webhook_box : Health → DetailPage → Option AttemptBox
  webhook_box health s =
      if show_webhooks health s
      then some (record {
        badge = webhook_badge lang s.webhook_status;
        replay =
            (text lang (if s.replaying then js "resending" else js "resendWebhook"), s.replaying);
        error = s.replay_error;
        remote = none;
        attempts = map webhook_row s.webhooks;
      })
      else none

  abbrev is_conflict : Option ℕ → Bool
  is_conflict none = false
  is_conflict (some status) = status == 409

  unfoldable pub provisioning_row : ProvisioningAttempt → AttemptRow
  provisioning_row p = record {
    attempt = p.attempt_number;
    attempted = stamp lang p.attempted_at;
    url = none;
    status_code = p.status_code;
    result = text lang (
        if p.success
        then if is_conflict p.status_code then js "alreadyExisted" else js "provisioned"
        else js "failed");
    hint = if p.success then none else p.error;
  }

  abbrev remote_text : Option ProvisioningJobStatus → Option Str
  remote_text none = none
  remote_text (some job) =
      if truthy job.remote_id
      then some (t lang (js "provisionedAs") ((js "id", str (or_else job.remote_id [])) ∷ []))
      else none

  unfoldable pub provisioning_box : Health → DetailPage → Option AttemptBox
  provisioning_box health s =
      if show_provisioning health s
      then some (record {
        badge = provisioning_badge lang s.provisioning_status;
        replay = (
          text lang (if s.replaying_provisioning then js "retrying" else js "retryProvisioning"),
          s.replaying_provisioning,
        );
        error = s.provisioning_replay_error;
        remote = remote_text s.provisioning_status;
        attempts = map provisioning_row s.provisioning;
      })
      else none

  unfoldable pub shown_record : Health → DetailPage → ClientRecord → Shown
  shown_record health s r = record {
    title = record_title lang r;
    buttons = title_buttons lang s;
    save_error = s.save_error;
    fields = if s.editing then input_list s.draft_fields else value_list r.fields;
    source_file = r.source_file;
    imported = stamp lang r.created_at;
    issues = issue_box s r;
    webhooks = webhook_box health s;
    provisioning = provisioning_box health s;
    delete_dialog =
        if s.confirming_delete
        then some (
          text lang (js "deleteRecordTitle"),
          text lang (
              if show_webhooks health s
              then js "deleteRecordMessageWebhooks"
              else js "deleteRecordMessage"),
        )
        else none;
  }

  unfoldable pub detail_content : Health → DetailPage → Content
  detail_content health s =
      if s.loading
      then waits
      else if truthy s.error
      then says (or_else s.error [])
      else elim s.shown [ none ↦ empty | some r ↦ shows (shown_record health s r) ]
