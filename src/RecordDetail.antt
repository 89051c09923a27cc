-- ===== src/RecordDetail.antt =====
-- frontend/src/pages/RecordDetailPage.tsx: the page of one record. A handler that awaits the API is
-- in parts: up to the call, which gives the page and what to call with, if anything; and on each
-- answer. `id` is the route's parameter, without which no handler does anything.
pub mod Edits
pub mod Saving
pub mod View
use tidybridge.Base.{
  ℕ, Str, js, str_eq, Bool, true, false, not, Option, none, some, List, [], ◌∷◌, if◌then◌else◌,
  ◌==◌, ◌||◌, ltb, length, keep, map, truthy, or_else, lookup, insert,
}
use tidybridge.I18n.{Lang, t}
use tidybridge.Types.{
  ClientRecord, WebhookDelivery, WebhookJobStatus, ProvisioningAttempt, ProvisioningJobStatus,
}
use tidybridge.Client.Errors.{Result, ok, fail, Failure, api_error, other_error, message_or}
use tidybridge.Client.Request.{Health}

pub record DetailPage : Type 0 where
  pub shown : Option ClientRecord
  pub webhooks : List WebhookDelivery
  pub webhook_status : Option WebhookJobStatus
  pub provisioning : List ProvisioningAttempt
  pub provisioning_status : Option ProvisioningJobStatus
  pub loading : Bool
  pub error : Option Str
  pub confirming_delete : Bool
  pub editing : Bool
  pub draft_fields : List (Str × Str)
  pub saving : Bool
  pub save_error : Option Str
  pub replaying : Bool
  pub replay_error : Option Str
  pub replaying_provisioning : Bool
  pub provisioning_replay_error : Option Str
  pub approving : Bool
  pub approve_error : Option Str
  pub alerts : List Str

unfoldable pub show_webhooks : Health → DetailPage → Bool
show_webhooks health s = health.webhooks || ltb 0 (length s.webhooks)

unfoldable pub show_provisioning : Health → DetailPage → Bool
show_provisioning health s = health.provisioning || ltb 0 (length s.provisioning)

-- What Promise.all of the five calls resolves with.
pub record Fetched : Type 0 where
  pub the_record : ClientRecord
  pub webhooks : List WebhookDelivery
  pub webhook_status : WebhookJobStatus
  pub provisioning : List ProvisioningAttempt
  pub provisioning_status : ProvisioningJobStatus

unfoldable pub fetch_begin : Option Str → DetailPage → DetailPage
fetch_begin id s = if truthy id then record s { loading = true; error = none } else s

abbrev fetch_error : Lang → Failure → Str
fetch_error lang (api_error e) =
    if e.status == 404 then t lang (js "recordNotFound") [] else t lang (js "loadRecordFailed") []
fetch_error lang other_error = t lang (js "loadRecordFailed") []

unfoldable pub fetch_end : Lang → Result Fetched → DetailPage → DetailPage
fetch_end lang (ok r) s = record s {
  shown = some r.the_record;
  webhooks = r.webhooks;
  webhook_status = some r.webhook_status;
  provisioning = r.provisioning;
  provisioning_status = some r.provisioning_status;
  loading = false;
}
fetch_end lang (fail e) s = record s { error = some (fetch_error lang e); loading = false }

-- setConfirmingDelete, by the button and the dialog's cancel.
unfoldable pub ask_delete : Bool → DetailPage → DetailPage
ask_delete open_it s = record s { confirming_delete = open_it }

-- handleDelete: the address to go to, if the call succeeds.
unfoldable pub delete_begin : Option Str → DetailPage → DetailPage
delete_begin id s = if truthy id then record s { confirming_delete = false } else s

unfoldable pub delete_answer : Lang → Result (Unit {0}) → DetailPage → Option Str × DetailPage
delete_answer lang (ok _) s = (some (js "/"), s)
delete_answer lang (fail e) s =
    (none, record s { alerts = t lang (js "deleteRecordFailed") [] ∷ s.alerts })

-- v ?? ""
abbrev pub text_of : Str × Option Str → Str × Str
text_of (k, v) = (k, or_else v [])

unfoldable pub edited : Option ClientRecord → DetailPage → DetailPage
edited none s = s
edited (some r) s = record s {
  draft_fields = map text_of r.fields;
  save_error = none;
  editing = true;
}

unfoldable pub start_editing : DetailPage → DetailPage
start_editing s = edited s.shown s

unfoldable pub edit_field : Str → Str → DetailPage → DetailPage
edit_field key value s = record s { draft_fields = insert key value s.draft_fields }

unfoldable pub cancel_editing : DetailPage → DetailPage
cancel_editing s = record s { editing = false }

-- record.fields[k] ?? ""
unfoldable pub field_text : Str → List (Str × Option Str) → Str
field_text k fields = elim (lookup k fields) [ none ↦ [] | some v ↦ or_else v [] ]

abbrev pub is_changed : List (Str × Option Str) → Str × Str → Bool
is_changed fields (k, v) = not (str_eq (field_text k fields) v)

unfoldable pub changed_fields : List (Str × Option Str) → List (Str × Str) → List (Str × Str)
changed_fields fields draft = keep (is_changed fields) draft

-- handleSaveEdits up to the call: the fields that are sent, if any.
unfoldable pub save_changed : List (Str × Str) → DetailPage → Option (List (Str × Str)) × DetailPage
save_changed [] s = (none, record s { editing = false })
save_changed (c ∷ cs) s = (some (c ∷ cs), record s { saving = true; save_error = none })

unfoldable pub save_edits_begin : Option Str → DetailPage → Option (List (Str × Str)) × DetailPage
unfolding save_changed
save_edits_begin id s =
    if truthy id
    then elim s.shown [
      | none ↦ (none, s)
      | some r ↦ save_changed (changed_fields r.fields s.draft_fields) s
    ]
    else (none, s)

-- refreshJobStatuses: what Promise.all of the two calls resolves with.
abbrev pub Statuses : Type 0
Statuses = WebhookJobStatus × ProvisioningJobStatus

abbrev with_statuses : Statuses → DetailPage → DetailPage
with_statuses (w, p) s = record s { webhook_status = some w; provisioning_status = some p }

unfoldable pub save_failed : Lang → Failure → DetailPage → DetailPage
save_failed lang e s = record s {
  save_error = some (message_or e (t lang (js "saveFailed") []));
  saving = false;
}

-- The answer to the edit; on success the two statuses are asked for, and `saving` stays until then.
unfoldable pub save_edits_answer : Lang → Result ClientRecord → DetailPage → DetailPage
unfolding save_failed
save_edits_answer lang (ok updated) s = record s { shown = some updated; editing = false }
save_edits_answer lang (fail e) s = save_failed lang e s

unfoldable pub save_edits_end : Lang → Result Statuses → DetailPage → DetailPage
unfolding save_failed
save_edits_end lang (ok statuses) s = record (with_statuses statuses s) { saving = false }
save_edits_end lang (fail e) s = save_failed lang e s

unfoldable pub save_answered :
    Lang → Result ClientRecord → Result Statuses → DetailPage → DetailPage
unfolding save_edits_answer save_edits_end
save_answered lang (ok updated) statuses s =
    save_edits_end lang statuses (save_edits_answer lang (ok updated) s)
save_answered lang (fail e) statuses s = save_edits_answer lang (fail e) s

unfoldable pub save_begun :
    Lang
    → (List (Str × Str) → Result ClientRecord)
    → Result Statuses
    → Option (List (Str × Str)) × DetailPage
    → DetailPage
save_begun lang answer statuses (none, s) = s
save_begun lang answer statuses (some changed, s) = save_answered lang (answer changed) statuses s

-- The whole of handleSaveEdits, against a server that gives these answers.
unfoldable pub save_edits :
    Lang
    → Option Str
    → (List (Str × Str) → Result ClientRecord)
    → Result Statuses
    → DetailPage
    → DetailPage
save_edits lang id answer statuses s = save_begun lang answer statuses (save_edits_begin id s)

unfoldable pub approve_begin : Option Str → DetailPage → DetailPage
approve_begin id s = if truthy id then record s { approving = true; approve_error = none } else s

unfoldable pub approve_failed : Lang → Failure → DetailPage → DetailPage
approve_failed lang e s = record s {
  approve_error = some (message_or e (t lang (js "approveFailed") []));
  approving = false;
}

unfoldable pub approve_answer : Lang → Result ClientRecord → DetailPage → DetailPage
unfolding approve_failed
approve_answer lang (ok approved) s = record s { shown = some approved }
approve_answer lang (fail e) s = approve_failed lang e s

unfoldable pub approve_end : Lang → Result Statuses → DetailPage → DetailPage
unfolding approve_failed
approve_end lang (ok statuses) s = record (with_statuses statuses s) { approving = false }
approve_end lang (fail e) s = approve_failed lang e s

unfoldable pub replay_begin : Option Str → DetailPage → DetailPage
replay_begin id s = if truthy id then record s { replaying = true; replay_error = none } else s

-- The end of handleReplay: both calls succeeded, or one of them failed.
unfoldable pub replay_end : Lang → Result (List WebhookDelivery) → DetailPage → DetailPage
replay_end lang (ok webhooks) s = record s { webhooks = webhooks; replaying = false }
replay_end lang (fail e) s = record s {
  replay_error = some (message_or e (t lang (js "resendFailed") []));
  replaying = false;
}

unfoldable pub replay_provisioning_begin : Option Str → DetailPage → DetailPage
replay_provisioning_begin id s =
    if truthy id
    then record s { replaying_provisioning = true; provisioning_replay_error = none }
    else s

unfoldable pub replay_provisioning_end :
    Lang → Result ProvisioningJobStatus → DetailPage → DetailPage
replay_provisioning_end lang (ok status) s = record s {
  provisioning_status = some status;
  replaying_provisioning = false;
}
replay_provisioning_end lang (fail e) s = record s {
  provisioning_replay_error = some (message_or e (t lang (js "retryProvisioningFailed") []));
  replaying_provisioning = false;
}
