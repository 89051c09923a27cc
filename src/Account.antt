-- ===== src/Account.antt =====
-- frontend/src/pages: the forms of signing in, invitations, passwords and profiles. A page's state
-- is the record of its useState values; what a handler navigates to is part of its result.
pub mod Login
pub mod Passwords
pub mod Forgotten
pub mod Profile
pub mod Runs
pub mod View
use tidybridge.Base.{Str, js, str_eq, Bool, true, false, Option, none, some, []}
use tidybridge.I18n.{Lang, t}
use tidybridge.Client.Errors.{Failure, api_error, other_error, message_or}

-- What navigate(path, { state }) hands to the next page.
pub record RouterState : Type 0 where
  pub password_reset : Bool
  pub invite_accepted : Bool
  pub email : Option Str
  pub from : Option Str

abbrev pub no_state : RouterState
no_state = record { password_reset = false; invite_accepted = false; email = none; from = none }

pub record Visit : Type 0 where
  pub path : Str
  pub state : RouterState

-- err instanceof ApiError ? err.message : t("somethingWentWrong")
unfoldable pub error_text : Lang → Failure → Str
error_text lang e = message_or e (t lang (js "somethingWentWrong") [])

-- err instanceof ApiError && err.code === code
unfoldable pub has_code : Str → Failure → Bool
has_code code (api_error e) = elim e.code [ none ↦ false | some c ↦ str_eq c code ]
has_code code other_error = false
