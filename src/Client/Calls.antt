-- ===== src/Client/Calls.antt =====
-- frontend/src/api/client.ts: the calls built on `request`. Its cast checks nothing: the calls of the
-- user give null and a body of another shape on, and so do those whose value nobody looks at. For the
-- calls that bring records, columns, uploads and states, a body of another shape is not followed up
-- to where the page reads in it: the cast here throws that TypeError.
use tidybridge.Base.{
  Str, js, Bool, true, false, Option, none, some, List, [], ◌∷◌, ◌++◌, if◌then◌else◌, truthy,
  or_else,
}
use tidybridge.Types.{
  ClientRecord, ColumnMapping, ColumnMappingIn, WebhookDelivery, IngestResult, WebhookJobStatus,
  ProvisioningAttempt, ProvisioningJobStatus, CurrentUser,
}
use tidybridge.Client.Errors.{Result, ok, fail, other_error}
use tidybridge.Client.Request.{
  post, put, patch, delete, Value, form, json, upload, Health, PilotRequestSummary, Payload,
  access_token, oauth_only, accepted, pilot_request, user, ingested, health, mapping, record_of,
  deliveries, webhook_status, attempts, provisioning_status, Response, HttpRequest, Build, Options,
  defaults, Session, request, Method,
}

-- `await request<void>(…)`: whatever came back is dropped.
abbrev pub as_void : Payload → Result (Unit {0})
as_void _ = ok tt

-- `await request(…)` whose value goes on as it came.
abbrev pub as_body : Payload → Result Payload
as_body p = ok p

-- `const { access_token } = …` throws on null, as the next two do. A body without the field gives
-- undefined, which localStorage writes as text, and which is no flag and an empty address below.
abbrev pub as_token : Payload → Result Str
as_token (access_token s) = ok s
as_token Payload.nothing = fail other_error
as_token _ = ok (js "undefined")

abbrev pub as_oauth_only : Payload → Result Bool
as_oauth_only (oauth_only b) = ok b
as_oauth_only Payload.nothing = fail other_error
as_oauth_only _ = ok false

abbrev pub as_email : Payload → Result Str
as_email (accepted s) = ok s
as_email (user u) = ok u.email
as_email (pilot_request p) = ok p.email
as_email Payload.nothing = fail other_error
as_email _ = ok []

abbrev pub as_pilot : Payload → Result PilotRequestSummary
as_pilot (pilot_request p) = ok p
as_pilot _ = fail other_error

-- A body whose fields are not those of a user: each of them reads undefined, which is as falsy, and
-- is shown, as the empty text.
abbrev pub no_fields : CurrentUser
no_fields = record {
  id = [];
  email = [];
  is_active = false;
  is_superuser = false;
  is_verified = false;
  first_name = none;
  last_name = none;
  phone = none;
  has_password = false;
}

-- `return request<CurrentUser>(…)`: null for no body or one that is no JSON, and any JSON body else,
-- with the email that some have; no page reads a user's id.
abbrev pub as_user : Payload → Result (Option CurrentUser)
as_user Payload.nothing = ok none
as_user (user u) = ok (some u)
as_user (accepted s) = ok (some (record no_fields { email = s }))
as_user (pilot_request p) = ok (some (record no_fields { email = p.email }))
as_user _ = ok (some no_fields)

abbrev pub as_ingest : Payload → Result IngestResult
as_ingest (ingested r) = ok r
as_ingest _ = fail other_error

abbrev pub as_health : Payload → Result Health
as_health (health h) = ok h
as_health _ = fail other_error

abbrev pub as_mapping : Payload → Result ColumnMapping
as_mapping (mapping m) = ok m
as_mapping _ = fail other_error

abbrev pub as_record : Payload → Result ClientRecord
as_record (record_of r) = ok r
as_record _ = fail other_error

abbrev pub as_deliveries : Payload → Result (List WebhookDelivery)
as_deliveries (deliveries ds) = ok ds
as_deliveries _ = fail other_error

abbrev pub as_webhook_status : Payload → Result WebhookJobStatus
as_webhook_status (webhook_status s) = ok s
as_webhook_status _ = fail other_error

abbrev pub as_attempts : Payload → Result (List ProvisioningAttempt)
as_attempts (attempts xs) = ok xs
as_attempts _ = fail other_error

abbrev pub as_provisioning_status : Payload → Result ProvisioningJobStatus
as_provisioning_status (provisioning_status s) = ok s
as_provisioning_status _ = fail other_error

pub record ProfileUpdate : Type 0 where
  pub first_name : Str
  pub last_name : Str
  pub phone : Option Str
  pub password : Option Str
  pub current_password : Option Str

abbrev pub with_method : Method → Options
with_method m = record defaults { method = some m }

abbrev pub send_json : Method → Bool → List (Str × Value) → Options
send_json m auth body = record {
  method = some m;
  body = some (json body);
  headers = (js "Content-Type", js "application/json") ∷ [];
  auth = auth;
}

-- What JSON.stringify writes for an optional string: an undefined one is left out.
abbrev optional : Str → Option Str → List (Str × Value)
optional key none = []
optional key (some s) = (key, Value.str s) ∷ []

abbrev or_null : Option Str → Value
or_null o = if truthy o then Value.str (or_else o []) else Value.null

-- The body of PATCH /users/me: the password goes along only if one is given.
unfoldable pub profile_body : ProfileUpdate → List (Str × Value)
profile_body input =
    (js "first_name", Value.str input.first_name)
    ∷ (js "last_name", Value.str input.last_name)
    ∷ (js "phone", or_null input.phone)
    ∷ (if truthy input.password
        then (js "password", Value.str (or_else input.password []))
          ∷ optional (js "current_password") input.current_password
        else [])

abbrev old_resolutions_body : ColumnMappingIn → List (Str × Value)
old_resolutions_body body = elim body.old_resolutions [
  | none ↦ []
  | some rs ↦ (js "old_resolutions", Value.resolutions rs) ∷ []
]

unfoldable pub mapping_body : ColumnMappingIn → List (Str × Value)
mapping_body body =
    (js "field_resolutions", Value.resolutions body.field_resolutions)
    ∷ (js "dedup_key_fields", Value.strs body.dedup_key_fields)
    ∷ (optional (js "apply_to_run_id") body.apply_to_run_id ++ old_resolutions_body body)

abbrev pub login_options : Str → Str → Options
login_options email password = record {
  method = some post;
  body = some (form ((js "username", email) ∷ (js "password", password) ∷ []));
  headers = (js "Content-Type", js "application/x-www-form-urlencoded") ∷ [];
  auth = false;
}

-- What an API call is: it may change the token and the address, and it may throw.
abbrev pub Call : Type 0 → Type 0 → Type 0
Call S T = Session S → Result T × Session S

module _ {S : Type 0} (build : Build) (serve : S → HttpRequest → Option Response × S) where
  unfoldable pub login : Str → Str → Call S Str
  login email password =
      request build serve as_token (js "/auth/jwt/login") (login_options email password)

  unfoldable pub logout : Call S (Unit {0})
  logout = request build serve as_void (js "/auth/jwt/logout") (with_method post)

  unfoldable pub forgot_password : Str → Call S Bool
  forgot_password email =
      request build serve as_oauth_only (js "/auth/forgot-password")
        (send_json post false ((js "email", Value.str email) ∷ []))

  unfoldable pub reset_password : Str → Str → Call S (Unit {0})
  reset_password token password = request build serve as_void (js "/auth/reset-password") (
      send_json post false
        ((js "token", Value.str token) ∷ (js "password", Value.str password) ∷ []))

  unfoldable pub accept_invite : Str → Str → Call S Str
  accept_invite token password = request build serve as_email (js "/auth/accept-invite") (
      send_json post false
        ((js "token", Value.str token) ∷ (js "password", Value.str password) ∷ []))

  unfoldable pub get_current_user : Call S (Option CurrentUser)
  get_current_user = request build serve as_user (js "/users/me") defaults

  unfoldable pub update_profile : ProfileUpdate → Call S (Option CurrentUser)
  update_profile input =
      request build serve as_user (js "/users/me") (send_json patch true (profile_body input))

  unfoldable pub delete_account : Call S (Unit {0})
  delete_account = request build serve as_void (js "/users/me") (with_method delete)

  unfoldable pub upload_file : Str → Call S IngestResult
  upload_file file =
      request build serve as_ingest (js "/records/upload")
        (record (with_method post) { body = some (upload file) })

  unfoldable pub get_health : Call S Health
  get_health = request build serve as_health (js "/health") (record defaults { auth = false })

  unfoldable pub get_column_mapping : Str → Call S ColumnMapping
  get_column_mapping fingerprint =
      request build serve as_mapping (js "/column-mappings/" ++ fingerprint) defaults

  unfoldable pub save_column_mapping : Str → ColumnMappingIn → Call S Payload
  save_column_mapping fingerprint body =
      request build serve as_body (js "/column-mappings/" ++ fingerprint)
        (send_json put true (mapping_body body))

  unfoldable pub get_record : Str → Call S ClientRecord
  get_record id = request build serve as_record (js "/records/" ++ id) defaults

  unfoldable pub update_record_fields : Str → List (Str × Option Str) → Call S ClientRecord
  update_record_fields id changes =
      request build serve as_record (js "/records/" ++ id)
        (send_json patch true ((js "fields", Value.fields changes) ∷ []))

  unfoldable pub approve_record : Str → Call S ClientRecord
  approve_record id =
      request build serve as_record (js "/records/" ++ (id ++ js "/approve")) (with_method post)

  unfoldable pub get_record_webhooks : Str → Call S (List WebhookDelivery)
  get_record_webhooks id =
      request build serve as_deliveries (js "/records/" ++ (id ++ js "/webhooks")) defaults

  unfoldable pub get_record_webhook_status : Str → Call S WebhookJobStatus
  get_record_webhook_status id =
      request build serve as_webhook_status (js "/records/" ++ (id ++ js "/webhook-status"))
        defaults

  unfoldable pub replay_webhook : Str → Call S Payload
  replay_webhook id =
      request build serve as_body (js "/records/" ++ (id ++ js "/webhooks/replay"))
        (with_method post)

  unfoldable pub get_record_provisioning : Str → Call S (List ProvisioningAttempt)
  get_record_provisioning id =
      request build serve as_attempts (js "/records/" ++ (id ++ js "/provisioning")) defaults

  unfoldable pub get_record_provisioning_status : Str → Call S ProvisioningJobStatus
  get_record_provisioning_status id =
      request build serve as_provisioning_status
        (js "/records/" ++ (id ++ js "/provisioning-status")) defaults

  unfoldable pub replay_provisioning : Str → Call S ProvisioningJobStatus
  replay_provisioning id =
      request build serve as_provisioning_status
        (js "/records/" ++ (id ++ js "/provisioning/replay")) (with_method post)

  unfoldable pub delete_record : Str → Call S (Unit {0})
  delete_record id = request build serve as_void (js "/records/" ++ id) (with_method delete)

  unfoldable pub bulk_delete_records : List Str → Call S Payload
  bulk_delete_records ids =
      request build serve as_body (js "/records/bulk-delete")
        (send_json post true ((js "record_ids", Value.strs ids) ∷ []))

-- encodeURIComponent is taken as it is given.
module _ {S : Type 0} (build : Build) (serve : S → HttpRequest → Option Response × S)
    (encode : Str → Str) where
  unfoldable pub get_pilot_request : Str → Call S PilotRequestSummary
  get_pilot_request id = request build serve as_pilot (js "/pilot-requests/" ++ encode id) defaults

  unfoldable pub invite_pilot_request : Str → Call S (Unit {0})
  invite_pilot_request id =
      request build serve as_void (js "/pilot-requests/" ++ (encode id ++ js "/invite"))
        (with_method post)
