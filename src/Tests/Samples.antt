-- ===== src/Tests/Samples.antt =====
-- Data that the tests share: records, a user, a build, and a server that pages a list.
use tidybridge.Base.{
  ℕ, Str, js, Bool, true, false, Option, none, some, List, [], ◌∷◌, ◌++◌, drop, length, ◌≡◌, ap,
  append-nil,
}
use tidybridge.Types.{ClientRecord, CurrentUser}
use tidybridge.I18n.{decimal, spanish}
use tidybridge.I18n.Decimal.{value, value-decimal}
use tidybridge.Client.Request.{
  Build, HttpRequest, Response, Session, Payload, records, defaults, build_request,
}
use tidybridge.Client.Walk.{records_path, record_filter}
use tidybridge.Client.Walk.Complete.{slice}

abbrev pub row : Str → List (Str × Option Str) → Bool → Option Str → ClientRecord
row id fields has_issues approved_at = record {
  id = id;
  ingestion_run_id = some (js "run-1");
  source_file = js "clients.csv";
  fields = fields;
  has_issues = has_issues;
  issues = none;
  approved_at = approved_at;
  created_at = js "2026-07-01T10:00:00Z";
}

abbrev pub ana : ClientRecord
ana =
    row (js "r1") ((js "full_name", some (js "Ana")) ∷ (js "amount", some (js "10")) ∷ []) false
      none

abbrev pub luis : ClientRecord
luis =
    row (js "r2") ((js "full_name", some (js "Luis")) ∷ (js "amount", some (js "2")) ∷ []) true none

abbrev pub eva : ClientRecord
eva =
    row (js "r3") ((js "full_name", some (js "Eva")) ∷ (js "amount", none) ∷ []) true
      (some (js "2026-07-02"))

abbrev pub three : List ClientRecord
three = ana ∷ luis ∷ eva ∷ []

abbrev pub someone : CurrentUser
someone = record {
  id = js "u1";
  email = js "ana@example.com";
  is_active = true;
  is_superuser = false;
  is_verified = true;
  first_name = some (js "Ana");
  last_name = some (js "Ruiz");
  phone = some (js "+34 600000000");
  has_password = true;
}

abbrev pub api : Build
api = record { api_url = js "https://api.tidybridge.dev"; gate_password = some (js "gate") }

abbrev json_type : Option Str
json_type = some (js "application/json")

abbrev pub answer : Payload → Option Response
answer body = some (record { status = 200; content_type = json_type; body = body })

-- Where the offset stands in the address of a request for records.
abbrev before_offset : Str
before_offset = js "https://api.tidybridge.dev" ++ js "/records?limit=500&offset="

-- A server that reads the offset and sends the records from there on.
abbrev pub paging : List ClientRecord → Unit {0} → HttpRequest → Option Response × Unit {0}
paging xs s r = (answer (records (slice 500 xs (value (drop (length before_offset) r.url) 0))), s)

abbrev pub signed_in : Session (Unit {0})
signed_in = record { server = tt; token = some (js "tok"); assigned = []; lang = spanish }

-- Its address for an offset gives the offset back.
offset_read :
    (n : ℕ)
    → value
        (drop (length before_offset) (js "https://api.tidybridge.dev" ++ records_path none none n))
        0
      ≡ n
unfolding records_path record_filter js
offset_read n = rw (append-nil (decimal n)) (value-decimal n)

pub paging_answers :
    (xs : List ClientRecord) (offset : ℕ) (s : Unit {0}) (token : Option Str)
    → (paging xs s (build_request api token (records_path none none offset) defaults)).0
      ≡ answer (records (slice 500 xs offset))
unfolding build_request
paging_answers xs offset s token = ap (λ n. answer (records (slice 500 xs n))) (offset_read offset)
