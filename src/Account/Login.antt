-- ===== src/Account/Login.antt =====
-- frontend/src/pages/LoginPage.tsx.
pub mod Laws
use tidybridge.Base.{
  Str, js, Bool, true, false, not, ◌&&◌, Option, none, some, List, [], ◌∷◌, ◌++◌, if◌then◌else◌,
  or_else,
}
use tidybridge.I18n.{Lang, t}
use tidybridge.Client.Errors.{Result, ok, fail}
use tidybridge.Client.Request.{Build, HttpRequest, Response}
use tidybridge.Auth.{App, login_with_password}
use tidybridge.Auth.Guard.{return_path}
use tidybridge.Account.{RouterState, error_text}

pub record LoginForm : Type 0 where
  pub email : Str
  pub password : Str
  pub error : Option Str
  pub submitting : Bool

-- useState(state?.email ?? "")
unfoldable pub login_form : RouterState → LoginForm
login_form state = record {
  email = or_else state.email [];
  password = [];
  error = none;
  submitting = false;
}

-- onChange of the two inputs.
pub data LoginInput : Type 0 where
  email_input secret_input : LoginInput

unfoldable pub type_login : LoginInput → Str → LoginForm → LoginForm
type_login email_input value f = record f { email = value }
type_login secret_input value f = record f { password = value }

abbrev notice : Bool → Str → List Str
notice shown text = if shown then text ∷ [] else []

-- The notices above the form. `expired` and `changed` are whether the address has these parameters.
unfoldable pub notices : Lang → RouterState → Bool → Bool → List Str
notices lang state expired changed =
    notice state.password_reset (t lang (js "passwordResetDone") [])
    ++ (notice state.invite_accepted (t lang (js "inviteAcceptedSignIn") [])
        ++ (notice changed (t lang (js "passwordChangedSignIn") [])
            ++ notice (expired && not state.password_reset) (t lang (js "err_sessionExpired") [])))

unfoldable pub login_begin : LoginForm → LoginForm
login_begin f = record f { error = none; submitting = true }

-- The path that is navigated to, if the sign-in did not throw.
unfoldable pub login_answer :
    Lang → RouterState → Result (Unit {0}) → LoginForm → Option Str × LoginForm
login_answer lang state (ok _) f = (some (return_path state.from), record f { submitting = false })
login_answer lang state (fail e) f =
    (none, record f { error = some (error_text lang e); submitting = false })

module _ {S : Type 0} (build : Build) (serve : S → HttpRequest → Option Response × S) where
  -- The whole of handleSubmit.
  unfoldable pub login_submit : RouterState → LoginForm → App S → (Option Str × LoginForm) × App S
  unfolding login_begin login_answer
  login_submit state f a =
      let (r, a') = login_with_password build serve f.email f.password a in
      (login_answer a.session.lang state r (login_begin f), a')
