-- ===== src/Client/Request.antt =====
-- frontend/src/api/client.ts: the token, the headers and `request`, the one path to the API.
pub mod Laws
use tidybridge.Base.{
  ℕ, Str, js, String, Bool, true, false, not, ◌&&◌, ◌||◌, Option, none, some, List, [], ◌∷◌, ◌++◌,
  if◌then◌else◌, ◌==◌, leb, truthy, or_else, insert, starts_with,
}
use tidybridge.I18n.{Lang, t}
use tidybridge.Types.{
  ClientRecord, FieldResolution, ColumnMapping, WebhookDelivery, IngestResult, IngestionRun, Page,
  WebhookJobStatus, ProvisioningAttempt, ProvisioningJobStatus, CurrentUser,
}
use tidybridge.Client.Errors.{
  Detail, text, coded, missing, Result, ok, fail, api_error, other_error, error_code,
  extract_error_message,
}

pub data Method : Type 0 where
  get post put patch delete : Method

-- What JSON.stringify is given.
pub data Value : Type 0 where
  str : Str → Value
  null : Value
  strs : List Str → Value
  fields : List (Str × Option Str) → Value
  resolutions : List FieldResolution → Value

-- A request's body: URLSearchParams, a JSON object, or a form with one file (by its name).
pub data Body : Type 0 where
  form : List (Str × Str) → Body
  json : List (Str × Value) → Body
  upload : Str → Body

pub record HttpRequest : Type 0 where
  pub method : Method
  pub url : Str
  pub headers : List (Str × Str)
  pub body : Option Body

pub record Health : Type 0 where
  pub status : Str
  pub extraction : Bool
  pub webhooks : Bool
  pub provisioning : Bool
  pub github : Bool

pub record PilotRequestSummary : Type 0 where
  pub name : Str
  pub firm : Str
  pub email : Str

-- The bodies that the API sends, one constructor to a shape, and `failure` for those of errors.
-- `nothing` is null or undefined: no body, or one that is no JSON.
pub data Payload : Type 0 where
  nothing : Payload
  failure : Detail → Payload
  access_token : Str → Payload
  oauth_only : Bool → Payload
  accepted : Str → Payload
  pilot_request : PilotRequestSummary → Payload
  user : CurrentUser → Payload
  ingested : IngestResult → Payload
  health : Health → Payload
  mapping : ColumnMapping → Payload
  runs : Page IngestionRun → Payload
  records : Page ClientRecord → Payload
  record_of : ClientRecord → Payload
  deliveries : List WebhookDelivery → Payload
  delivery : WebhookDelivery → Payload
  webhook_status : WebhookJobStatus → Payload
  attempts : List ProvisioningAttempt → Payload
  provisioning_status : ProvisioningJobStatus → Payload
  deleted_count : ℕ → Payload

pub record Response : Type 0 where
  pub status : ℕ
  pub content_type : Option Str
  pub body : Payload

-- The build's constants: VITE_API_URL and VITE_STAGING_GATE_PASSWORD.
pub record Build : Type 0 where
  pub api_url : Str
  pub gate_password : Option Str

pub record Options : Type 0 where
  pub method : Option Method
  pub body : Option Body
  pub headers : List (Str × Str)
  pub auth : Bool

abbrev pub defaults : Options
defaults = record { method = none; body = none; headers = []; auth = true }

-- The browser as this module sees it: the token in localStorage, the addresses given to
-- window.location.assign (latest first), the language, and what it talks to.
pub record Session (S : Type 0) : Type 0 where
  pub server : S
  pub token : Option Str
  pub assigned : List Str
  pub lang : Lang

-- `body?.detail`
abbrev pub detail_of : Payload → Detail
detail_of (failure d) = d
detail_of _ = missing

-- contentType.includes("application/json")
unfoldable pub contains : Str → Str → Bool
contains [] part = starts_with [] part
contains (c ∷ s) part = starts_with (c ∷ s) part || contains s part

module _ (build : Build) where
  -- apiHeaders over the options' own: { ...options.headers, ...apiHeaders(auth) }
  unfoldable pub with_token : Option Str → Bool → List (Str × Str) → List (Str × Str)
  with_token token auth headers =
      if auth && truthy token
      then insert (js "Authorization") (js "Bearer " ++ or_else token []) headers
      else headers

  unfoldable pub with_gate : List (Str × Str) → List (Str × Str)
  with_gate headers =
      if truthy build.gate_password
      then insert (js "X-Staging-Password") (or_else build.gate_password []) headers
      else headers

  unfoldable pub build_request : Option Str → Str → Options → HttpRequest
  build_request token path opts = record {
    method = or_else opts.method get;
    url = build.api_url ++ path;
    headers = with_gate (with_token token opts.auth opts.headers);
    body = opts.body;
  }

unfoldable pub payload_of : Response → Payload
payload_of r =
    if contains (or_else r.content_type []) (js "application/json") then r.body else nothing

abbrev pub response_ok : ℕ → Bool
response_ok status = leb 200 status && leb status 299

module _ {S : Type 0} where
  -- A 401 to a signed-in request: drop the token and go to the login page.
  unfoldable pub expire : Bool → ℕ → Session S → Session S
  expire auth status w =
      if status == 401 && (auth && truthy w.token)
      then record w { token = none; assigned = js "/login?expired=1" ∷ w.assigned }
      else w

  -- What `request` makes of the answer; `none` is a fetch that throws.
  unfoldable pub settle {ℓ} :
      {T : Type ℓ}
      → (Payload → Result T)
      → Bool
      → Option Response
      → Session S
      → Result T × Session S
  settle cast auth none w = (
    fail (api_error (record { status = 0; message = t w.lang (js "err_offline") []; code = none })),
    w,
  )
  settle cast auth (some r) w =
      if r.status == 204
      then (cast nothing, expire auth r.status w)
      else if response_ok r.status
      then (cast (payload_of r), expire auth r.status w)
      else (
        fail (
            api_error (record {
              status = r.status;
              message = extract_error_message w.lang r.status (detail_of (payload_of r));
              code = error_code (detail_of (payload_of r));
            })),
        expire auth r.status w,
      )

  module _ (build : Build) (serve : S → HttpRequest → Option Response × S) where
    unfoldable pub request {ℓ} :
        {T : Type ℓ} → (Payload → Result T) → Str → Options → Session S → Result T × Session S
    request cast path opts w =
        let (answer, server) = serve w.server (build_request build w.token path opts) in
        settle cast opts.auth answer (record w { server = server })
