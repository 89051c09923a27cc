-- ===== src/Tests/Client.antt =====
-- client.ts at concrete inputs.
use tidybridge.Base.{
  ℕ, ◌≤◌, ◌≡◌, ◌≢◌, refl, ◌⊎◌, js, true, Option, none, some, [], ◌∷◌, ◌++◌, arith,
}
use tidybridge.I18n.{spanish}
use tidybridge.Types.{CurrentUser, Page}
use tidybridge.Client.Errors.{Result, is_code, ok, text, extract_error_message}
use tidybridge.Client.Errors.Messages.{sentence_never_raw, IsGeneric}
use tidybridge.Client.Request.{HttpRequest, Response, Session, Payload, defaults, request}
use tidybridge.Client.Request.Laws.{request-token, IsExpired}
use tidybridge.Client.Calls.{as_user}
use tidybridge.Client.Download.{file_name, file_name-attachment}
use tidybridge.Client.Walk.{list_records, walk}
use tidybridge.Client.Walk.Complete.{list_records_complete}
use tidybridge.Client.Walk.Ends.{walk_ends}
use tidybridge.ServerText.{translate_server_text}
use tidybridge.Tests.Samples.{three, api, paging, signed_in, paging_answers}

list_records_complete_example :
    (w : Session (Unit {0})) × (list_records api (paging three) 4 none none signed_in
      ≡ some (ok three, w))
list_records_complete_example =
    list_records_complete api (paging three) none none three (paging_answers three) 4 signed_in
      (omega arith)

-- A server that lost the session.
abbrev refusing : Unit {0} → HttpRequest → Option Response × Unit {0}
refusing s r = (some (record { status = 401; content_type = none; body = Payload.nothing }), s)

abbrev asked : Result (Option CurrentUser) × Session (Unit {0})
asked = request api refusing as_user (js "/users/me") defaults signed_in

request-token_example :
    ((asked.1.token ≡ signed_in.token) × (asked.1.assigned ≡ signed_in.assigned))
    ⊎ ((asked.1.token ≡ none)
        × (asked.1.assigned ≡ js "/login?expired=1" ∷ signed_in.assigned)
        × (true ≡ true)
        × IsExpired signed_in.lang asked.0)
request-token_example = request-token api refusing as_user (js "/users/me") defaults signed_in

-- A server that always sends a full page of one and says there are two.
abbrev endless : ℕ → Session (Unit {0}) → Result (Page ℕ) × Session (Unit {0})
endless offset w = (ok (record { items = 7 ∷ []; total = 2; limit = 1; offset = offset }), w)

two_bounds :
    (offset : ℕ) (w : Session (Unit {0})) (page : Page ℕ)
    → (endless offset w).0 ≡ ok page
    → page.total ≤ 2
two_bounds offset w page h =
    let same : record { items = 7 ∷ []; total = 2; limit = 1; offset = offset } ≡ page = cc in
    rw (← same) (omega arith)

walk_ends_example : walk endless 3 0 [] signed_in ≢ none
walk_ends_example = walk_ends endless 2 two_bounds 3 0 [] signed_in (omega arith) (omega arith)

sentence_never_raw_example :
    ((extract_error_message spanish 400 (text (js "The file is empty"))
        ≡ translate_server_text spanish (js "The file is empty"))
      × (translate_server_text spanish (js "The file is empty") ≢ js "The file is empty"))
    ⊎ IsGeneric spanish (extract_error_message spanish 400 (text (js "The file is empty")))
unfolding is_code js
sentence_never_raw_example = sentence_never_raw spanish 400 (js "The file is empty") refl

file_name-attachment_example :
    file_name (some (js "attachment; filename=\"" ++ (js "records.csv" ++ js "\"")))
    ≡ js "records.csv"
unfolding js
file_name-attachment_example = file_name-attachment b'r' (js "ecords.csv") refl
