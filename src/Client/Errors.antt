-- ===== src/Client/Errors.antt =====
-- frontend/src/api/client.ts: ApiError, `errorCode` and `extractErrorMessage`.
pub mod Messages
use tidybridge.Base.{
  ℕ, ◌≤◌, Str, js, str_eq, Bool, true, false, not, ◌&&◌, ◌||◌, Option, none, some, List, [], ◌∷◌,
  if◌then◌else◌, ◌==◌, leb, is_upper, is_empty, all,
}
use tidybridge.I18n.{Lang, t}
use tidybridge.ServerText.{translate_server_text, translate_error_code}

-- The `detail` of an error body: a string, an object with what it has of `code` and `reason` as
-- strings, or anything else (no body, no detail, a list).
pub data Detail : Type 0 where
  text : Str → Detail
  coded : Option Str → Option Str → Detail
  missing : Detail

pub record ApiError : Type 0 where
  pub status : ℕ
  pub message : Str
  pub code : Option Str

-- What a call throws: an ApiError, or another error (a TypeError on a body of another shape).
pub data Failure : Type 0 where
  api_error : ApiError → Failure
  other_error : Failure

pub data Result {ℓ} (A : Type ℓ) : Type ℓ where
  ok : A → Result A
  fail : Failure → Result A

-- /^[A-Z_]+$/
unfoldable pub is_code : Str → Bool
is_code s = not (is_empty s) && all (λ c. is_upper c || c == b'_') s

unfoldable pub error_code : Detail → Option Str
error_code (text s) = if is_code s then some s else none
error_code (coded code reason) = code
error_code missing = none

abbrev pub detail_text : Detail → Option Str
detail_text (text s) = some s
detail_text (coded code reason) = reason
detail_text missing = none

abbrev pub is_plain : Detail → Bool
is_plain (text s) = true
is_plain (coded code reason) = false
is_plain missing = false

-- The last lines, for what no translation was found for.
unfoldable pub generic_message : Lang → ℕ → Str
generic_message lang status =
    if status == 422
    then t lang (js "err_invalidInput") []
    else if leb 500 status
    then t lang (js "err_server") []
    else t lang (js "err_generic") []

-- `if (text !== null) { … }`, falling through to the generic message.
unfoldable pub reword : Lang → ℕ → Bool → Option Str → Str
unfolding generic_message
reword lang status plain none = generic_message lang status
reword lang status plain (some s) =
    if is_code s && plain
    then translate_error_code lang s
    else if not (str_eq (translate_server_text lang s) s)
    then translate_server_text lang s
    else generic_message lang status

unfoldable pub extract_error_message : Lang → ℕ → Detail → Str
unfolding reword
extract_error_message lang status detail =
    if status == 401
    then t lang (js "err_sessionExpired") []
    else if status == 429
    then t lang (js "err_tooMany") []
    else reword lang status (is_plain detail) (detail_text detail)

-- err instanceof ApiError ? err.message : fallback
unfoldable pub message_or : Failure → Str → Str
message_or (api_error e) fallback = e.message
message_or other_error fallback = fallback
