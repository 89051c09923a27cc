-- ===== src/Account/Forgotten.antt =====
-- frontend/src/pages/ForgotPasswordPage.tsx.
pub mod Laws
use tidybridge.Base.{ℕ, Str, js, Bool, true, false, Option, none, some, [], if◌then◌else◌, ◌==◌}
use tidybridge.I18n.{Lang, t}
use tidybridge.Client.Errors.{Result, ok, fail, Failure, api_error, other_error}
use tidybridge.Client.Request.{Build, HttpRequest, Response, Session}
use tidybridge.Client.Calls.{forgot_password}

pub data Outcome : Type 0 where
  sent oauth_only : Outcome

pub record ForgotForm : Type 0 where
  pub email : Str
  pub submitting : Bool
  pub outcome : Option Outcome
  pub error : Option Str

-- onChange of the input.
unfoldable pub type_address : Str → ForgotForm → ForgotForm
type_address value f = record f { email = value }

abbrev pub has_status : ℕ → Failure → Bool
has_status status (api_error e) = e.status == status
has_status status other_error = false

unfoldable pub forgot_begin : ForgotForm → ForgotForm
forgot_begin f = record f { error = none; submitting = true }

unfoldable pub forgot_failed : Lang → Bool → ForgotForm → ForgotForm
forgot_failed lang true f = record f {
  error = some (t lang (js "tooManyAttempts") []);
  submitting = false;
}
forgot_failed lang false f = record f { outcome = some sent; submitting = false }

unfoldable pub forgot_answer : Lang → Result Bool → ForgotForm → ForgotForm
unfolding forgot_failed
forgot_answer lang (ok oauth) f = record f {
  outcome = some (if oauth then oauth_only else sent);
  submitting = false;
}
forgot_answer lang (fail e) f = forgot_failed lang (has_status 429 e) f

module _ {S : Type 0} (build : Build) (serve : S → HttpRequest → Option Response × S) where
  -- The whole of handleSubmit.
  unfoldable pub forgot_submit : ForgotForm → Session S → ForgotForm × Session S
  unfolding forgot_begin forgot_answer
  forgot_submit f w =
      let (r, w') = forgot_password build serve f.email w in
      (forgot_answer w.lang r (forgot_begin f), w')
