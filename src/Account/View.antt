-- ===== src/Account/View.antt =====
-- frontend/src/pages: what the forms of signing in, passwords and profiles show, without their markup.
use tidybridge.Base.{
  Str, js, Bool, not, ◌&&◌, ◌||◌, Option, none, some, List, [], ◌∷◌, ◌++◌, if◌then◌else◌, truthy,
  or_else, is_empty, map,
}
use tidybridge.I18n.{Lang, t, str}
use tidybridge.I18n.Choice.{legal_urls}
use tidybridge.Types.{CurrentUser}
use tidybridge.Pages.Widgets.{rules_list}
use tidybridge.Account.{RouterState}
use tidybridge.Account.Login.{LoginForm, notices}
use tidybridge.Account.Passwords.{PasswordForm, has_form}
use tidybridge.Account.Forgotten.{ForgotForm, Outcome, sent, oauth_only}
use tidybridge.Account.Profile.{ProfileForm, PasswordChange, Settings, can_change}

-- A piece of a page: a text, an error, an input with its label and value, the list of the rules of
-- a password, a button with its text and whether it is disabled, or a link.
pub data Piece : Type 0 where
  says : Str → Piece
  fails : Str → Piece
  asks : Str → Str → Piece
  rules : List (Str × Bool × Str) → Piece
  submits : Str → Bool → Piece
  leads : Str → Str → Piece

abbrev text : Lang → Str → Str
text lang key = t lang key []

-- {error && …}
abbrev failure : Option Str → List Piece
failure error = if truthy error then fails (or_else error []) ∷ [] else []

-- A button that has another text while its request is on its way.
abbrev busy : Lang → Bool → Str → Str → Piece
busy lang submitting doing idle =
    submits (text lang (if submitting then doing else idle)) submitting

abbrev checked_rules : Lang → Str → List Piece
checked_rules lang password =
    if is_empty password then [] else rules (rules_list lang password) ∷ []

-- githubAuthorizeUrl()
unfoldable pub github_authorize_url : Str → Str
github_authorize_url api_url = api_url ++ js "/auth/github/authorize"

abbrev github_part : Lang → Bool → Str → List Piece
github_part lang github api_url =
    if github
    then says (text lang (js "or"))
      ∷ leads (text lang (js "continueWithGitHub")) (github_authorize_url api_url)
      ∷ []
    else []

-- LoginPage: the router's state, the parameters of the address, whether the server has the sign-in
-- with GitHub, and the API's address.
unfoldable pub login_page : Lang → RouterState → Bool → Bool → Bool → Str → LoginForm → List Piece
login_page lang state expired changed github api_url f =
    says (text lang (js "signIn"))
    ∷ says (text lang (js "signInIntro"))
    ∷ (map says (notices lang state expired changed)
        ++ (asks (text lang (js "email")) f.email
            ∷ leads (text lang (js "forgotPassword")) (js "/forgot-password")
            ∷ asks (text lang (js "password")) f.password
            ∷ (failure f.error
                ++ (busy lang f.submitting (js "signingIn") (js "signIn")
                    ∷ (github_part lang github api_url
                        ++ (says (text lang (js "noAccount"))
                            ∷ leads (text lang (js "requestPilot")) (legal_urls lang).pilot
                            ∷ []))))))

-- The form that takes a password twice.
unfoldable pub two_passwords : Lang → Str → Str → PasswordForm → List Piece
two_passwords lang doing idle f =
    asks (text lang (js "newPassword")) f.password
    ∷ (checked_rules lang f.password
        ++ (asks (text lang (js "confirmNewPassword")) f.confirm_password
            ∷ (failure f.error ++ (busy lang f.submitting doing idle ∷ []))))

abbrev back_to_sign_in : Lang → List Piece
back_to_sign_in lang = leads (text lang (js "backToSignIn")) (js "/login") ∷ []

unfoldable pub accept_invite_page : Lang → Option Str → PasswordForm → List Piece
accept_invite_page lang token f =
    says (text lang (js "acceptInviteTitle"))
    ∷ says (text lang (js "acceptInviteIntro"))
    ∷ ((if has_form token
          then two_passwords lang (js "saving") (js "acceptInvite") f
          else says (text lang (js "inviteLinkInvalid")) ∷ [])
        ++ back_to_sign_in lang)

unfoldable pub reset_password_page : Lang → Option Str → PasswordForm → List Piece
reset_password_page lang token f =
    says (text lang (js "newPasswordTitle"))
    ∷ says (text lang (js "linkOnce"))
    ∷ ((if has_form token
          then two_passwords lang (js "resetting") (js "resetPassword") f
          else says (text lang (js "linkMissingToken"))
            ∷ leads (text lang (js "requestNewLink")) (js "/forgot-password")
            ∷ [])
        ++ back_to_sign_in lang)

abbrev outcome_part : Lang → ForgotForm → Option Outcome → List Piece
outcome_part lang f (some sent) =
    says (t lang (js "resetSent") ((js "email", str f.email) ∷ [])) ∷ []
outcome_part lang f (some oauth_only) =
    says (t lang (js "oauthOnly") ((js "email", str f.email) ∷ []))
    ∷ leads (text lang (js "continueWithGitHub")) (js "/login")
    ∷ says (text lang (js "addPasswordLater"))
    ∷ []
outcome_part lang f none =
    asks (text lang (js "email")) f.email
    ∷ (failure f.error ++ (busy lang f.submitting (js "sending") (js "sendResetLink") ∷ []))

unfoldable pub forgot_password_page : Lang → ForgotForm → List Piece
forgot_password_page lang f =
    says (text lang (js "resetTitle"))
    ∷ says (text lang (js "resetIntro"))
    ∷ (outcome_part lang f f.outcome ++ back_to_sign_in lang)

-- The inputs of a name and a phone.
abbrev profile_inputs : Lang → ProfileForm → List Piece
profile_inputs lang f =
    asks (text lang (js "firstName")) f.first_name
    ∷ asks (text lang (js "lastName")) f.last_name
    ∷ asks (text lang (js "countryCode")) f.dial_code
    ∷ asks (text lang (js "phone")) f.phone_number
    ∷ []

-- CompleteProfilePage: `agreed` is the state of its box.
unfoldable pub complete_profile_page : Lang → Option CurrentUser → Bool → ProfileForm → List Piece
complete_profile_page lang user agreed f =
    says (text lang (js "oneMoreStep"))
    ∷ says (
        t lang (js "githubNoName")
          ((js "email", str (elim user [ none ↦ [] | some u ↦ u.email ])) ∷ []))
    ∷ (profile_inputs lang f
        ++ (says (text lang (js "agreeTo"))
            ∷ leads (text lang (js "terms")) (legal_urls lang).terms
            ∷ says (text lang (js "and"))
            ∷ leads (text lang (js "privacyPolicy")) (legal_urls lang).privacy
            ∷ says (text lang (js "agreeOwnData"))
            ∷ (failure f.error
                ++ (submits (text lang (if f.submitting then js "saving" else js "continue"))
                      (f.submitting || not agreed)
                    ∷ []))))

-- SettingsPage: its four parts.
unfoldable pub profile_part : Lang → CurrentUser → Settings → List Piece
profile_part lang user s =
    says (text lang (js "accountSettings"))
    ∷ says (text lang (js "settingsIntro"))
    ∷ asks (text lang (js "email")) user.email
    ∷ (profile_inputs lang s.profile
        ++ (failure s.profile.error
            ++ ((if s.saved && not (truthy s.profile.error)
                  then says (text lang (js "saved")) ∷ []
                  else [])
                ++ (busy lang s.profile.submitting (js "saving") (js "saveChanges") ∷ []))))

unfoldable pub password_part : Lang → CurrentUser → PasswordChange → List Piece
password_part lang user c =
    says (text lang (js "changePassword"))
    ∷ says (text lang (js "leaveBlank"))
    ∷ ((if user.has_password
          then asks (text lang (js "currentPassword")) c.current_password ∷ []
          else [])
        ++ (asks (text lang (js "newPassword")) c.new_password
            ∷ (checked_rules lang c.new_password
                ++ (asks (text lang (js "confirmNewPassword")) c.confirm_password
                    ∷ (failure c.password_error
                        ++ (submits
                              (text lang (
                                if c.changing_password then js "changing" else js "changePassword"))
                              (not (can_change user c))
                            ∷ []))))))

unfoldable pub delete_part : Lang → Settings → List Piece
delete_part lang s =
    says (text lang (js "dangerZone"))
    ∷ says (text lang (js "deleteAccountWarning"))
    ∷ (failure s.delete_account_error
        ++ (busy lang s.deleting_account (js "deleting") (js "deleteAccount") ∷ []))

-- The dialog: title, message and the text of its button.
unfoldable pub delete_account_dialog : Lang → Settings → Option (Str × Str × Str)
delete_account_dialog lang s =
    if s.confirming_delete_account
    then some (
      text lang (js "deleteAccountTitle"),
      text lang (js "deleteAccountWarning"),
      text lang (js "deleteAccount"),
    )
    else none
