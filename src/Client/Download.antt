-- ===== src/Client/Download.antt =====
-- frontend/src/api/client.ts: exportRecords, which fetches a file and has the browser save it.
use tidybridge.Base.{
  ℕ, Str, js, true, false, not, ◌≡◌, refl, Option, none, some, [], ◌∷◌, ◌++◌, if◌then◌else◌, ◌==◌,
  truthy, or_else, starts_with, drop, arith, all, append_assoc, append-nil, is_empty,
}
use tidybridge.I18n.{t}
use tidybridge.Client.Errors.{Result, ok, fail, api_error, other_error}
use tidybridge.Client.Request.{Build, HttpRequest, Session, build_request, defaults, response_ok}

-- The answer to the export: its status, and its content-disposition header, if it has one.
pub record FileResponse : Type 0 where
  pub status : ℕ
  pub disposition : Option Str

-- ([^"]+)" from here on, once `read` was taken.
unfoldable pub quoted : Str → Str → Option Str
quoted read [] = none
quoted read (c ∷ s) =
    let longer = quoted (read ++ c ∷ []) s in
    let closed = if is_empty read then none else some read in if c == b'"' then closed else longer

-- /filename="([^"]+)"/
unfoldable pub filename_from : Str → Option Str
filename_from [] = none
filename_from (c ∷ s) =
    let later = filename_from s in
    if starts_with (c ∷ s) (js "filename=\"")
    then elim (quoted [] (drop 10 (c ∷ s))) [ none ↦ later | some name ↦ some name ]
    else later

unfoldable pub file_name : Option Str → Str
file_name disposition =
    or_else (filename_from (or_else disposition [])) (js "tidybridge-records.csv")

unfoldable pub export_path : Option Str → Str
export_path run =
    js "/records/export" ++ (if truthy run then js "?ingestion_run_id=" ++ or_else run [] else [])

module _ {S : Type 0} (build : Build) (serve : S → HttpRequest → Option FileResponse × S) where
  -- What is made of the answer: the name that the file is saved under. A fetch that throws is
  -- thrown on as it is, and a 401 leaves the token where it is.
  unfoldable pub export_answer : Option FileResponse → Session S → Result Str
  export_answer none w = fail other_error
  export_answer (some r) w =
      if response_ok r.status
      then ok (file_name r.disposition)
      else fail (
          api_error
            (record { status = r.status; message = t w.lang (js "exportFailed") []; code = none }))

  unfoldable pub export_records : Option Str → Session S → Result Str × Session S
  export_records run w =
      let (answer, server) =
        serve w.server (build_request build w.token (export_path run) defaults) in
      (export_answer answer w, record w { server = server })

quoted_name :
    (read name : Str) (rest : Str)
    → all (λ c. not (c == b'"')) name ≡ true
    → is_empty (read ++ name) ≡ false
    → quoted read (name ++ b'"' ∷ rest) ≡ some (read ++ name)
unfolding quoted
quoted_name read [] rest h k =
    let same = append-nil read in
    let full : is_empty read ≡ false = rw same at k in rw (same, full) refl
quoted_name read (c ∷ name) rest h k =
    let joined = append_assoc read (c ∷ []) name in
    let inner = quoted_name (read ++ c ∷ []) name rest (ground arith) (rw joined k) in
    rw (← joined) (ground (arith, inner))

-- A file is saved under the name that the API's header gives it, if that is not empty and has no
-- quotation mark.
pub file_name-attachment :
    (c : ℕ) (name : Str)
    → all (λ d. not (d == b'"')) (c ∷ name) ≡ true
    → file_name (some (js "attachment; filename=\"" ++ ((c ∷ name) ++ js "\""))) ≡ c ∷ name
unfolding file_name filename_from js starts_with
file_name-attachment c name h =
    let name_taken : quoted [] (c ∷ (name ++ b'"' ∷ [])) ≡ some (c ∷ name) =
      quoted_name [] (c ∷ name) [] h refl in
    rw name_taken refl
