-- ===== src/Account/Passwords.antt =====
-- frontend/src/pages/AcceptInvitePage.tsx and ResetPasswordPage.tsx: the two forms that take a new
-- password twice, and the token of the link.
pub mod Laws
use tidybridge.Base.{
  Str, js, str_eq, Bool, true, false, Option, none, some, [], if◌then◌else◌, truthy, or_else,
}
use tidybridge.I18n.{Lang, t}
use tidybridge.Client.Errors.{Result, ok, fail, Failure}
use tidybridge.Client.Request.{Build, HttpRequest, Response, Session}
use tidybridge.Client.Calls.{accept_invite, reset_password}
use tidybridge.Account.{Visit, no_state, error_text, has_code}

pub record PasswordForm : Type 0 where
  pub password : Str
  pub confirm_password : Str
  pub error : Option Str
  pub submitting : Bool

-- useState("")
abbrev pub empty_form : PasswordForm
empty_form = record { password = []; confirm_password = []; error = none; submitting = false }

-- onChange of the two inputs.
pub data PasswordInput : Type 0 where
  first_input second_input : PasswordInput

unfoldable pub type_password : PasswordInput → Str → PasswordForm → PasswordForm
type_password first_input value f = record f { password = value }
type_password second_input value f = record f { confirm_password = value }

-- The form is shown only where the link has a token.
unfoldable pub has_form : Option Str → Bool
has_form token = truthy token

-- handleSubmit up to the call: the password that is sent, if any.
unfoldable pub password_begin : Lang → PasswordForm → Option Str × PasswordForm
password_begin lang f =
    if str_eq f.password f.confirm_password
    then (some f.password, record f { error = none; submitting = true })
    else (none, record f { error = some (t lang (js "passwordsDontMatch") []) })

abbrev refused : Str → PasswordForm → PasswordForm
refused message f = record f { error = some message; submitting = false }

unfoldable pub invite_error : Lang → Failure → Str
invite_error lang e =
    if has_code (js "VERIFY_USER_BAD_TOKEN") e
    then t lang (js "inviteLinkInvalid") []
    else if has_code (js "VERIFY_USER_ALREADY_VERIFIED") e
    then t lang (js "inviteAlreadyAccepted") []
    else error_text lang e

unfoldable pub invite_answer : Lang → Result Str → PasswordForm → Option Visit × PasswordForm
unfolding invite_error
invite_answer lang (ok email) f = (
  some (record {
    path = js "/login";
    state = record no_state { invite_accepted = true; email = some email };
  }),
  record f { submitting = false },
)
invite_answer lang (fail e) f = (none, refused (invite_error lang e) f)

unfoldable pub reset_error : Lang → Failure → Str
reset_error lang e =
    if has_code (js "RESET_PASSWORD_BAD_TOKEN") e
    then t lang (js "resetLinkInvalid") []
    else error_text lang e

unfoldable pub reset_answer : Lang → Result (Unit {0}) → PasswordForm → Option Visit × PasswordForm
unfolding reset_error
reset_answer lang (ok _) f = (
  some (record { path = js "/login"; state = record no_state { password_reset = true } }),
  record f { submitting = false },
)
reset_answer lang (fail e) f = (none, refused (reset_error lang e) f)

-- A whole handleSubmit: `call` is what it sends the password with, `answered` what it makes of the
-- answer.
module _ {S T : Type 0} (call : Str → Session S → Result T × Session S)
    (answered : Lang → Result T → PasswordForm → Option Visit × PasswordForm) where
  unfoldable pub submit_begun :
      Option Str × PasswordForm → Session S → (Option Visit × PasswordForm) × Session S
  submit_begun (none, f) w = ((none, f), w)
  submit_begun (some password, f) w = let (r, w') = call password w in (answered w.lang r f, w')

  unfoldable pub submit : PasswordForm → Session S → (Option Visit × PasswordForm) × Session S
  submit f w = submit_begun (password_begin w.lang f) w

module _ {S : Type 0} (build : Build) (serve : S → HttpRequest → Option Response × S) where
  unfoldable pub accept_invite_submit :
      Str → PasswordForm → Session S → (Option Visit × PasswordForm) × Session S
  unfolding invite_answer submit
  accept_invite_submit token = submit (accept_invite build serve token) invite_answer

  unfoldable pub reset_password_submit :
      Str → PasswordForm → Session S → (Option Visit × PasswordForm) × Session S
  unfolding reset_answer submit
  reset_password_submit token = submit (reset_password build serve token) reset_answer
