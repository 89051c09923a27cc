-- ===== src/Account/Profile.antt =====
-- frontend/src/pages/SettingsPage.tsx and CompleteProfilePage.tsx: the user's own data.
pub mod Laws
use tidybridge.Base.{
  Str, js, str_eq, Bool, true, false, not, ◌&&◌, ◌||◌, Option, none, some, [], if◌then◌else◌,
  or_else, is_empty, ◌∷◌,
}
use tidybridge.I18n.{Lang, t}
use tidybridge.Types.{CurrentUser}
use tidybridge.Phone.{Parsed, parse_phone, stored_phone}
use tidybridge.Phone.Countries.{CountryCode}
use tidybridge.Client.Errors.{Result, ok, fail, message_or}
use tidybridge.Client.Request.{Build, HttpRequest, Response}
use tidybridge.Client.Calls.{ProfileUpdate}
use tidybridge.Auth.{App, update_profile, delete_account}
use tidybridge.Account.{error_text}

-- What both pages ask for.
pub record ProfileForm : Type 0 where
  pub first_name : Str
  pub last_name : Str
  pub dial_code : Str
  pub phone_number : Str
  pub error : Option Str
  pub submitting : Bool

pub record PasswordChange : Type 0 where
  pub current_password : Str
  pub new_password : Str
  pub confirm_password : Str
  pub password_error : Option Str
  pub changing_password : Bool

pub record Settings : Type 0 where
  pub profile : ProfileForm
  pub saved : Bool
  pub change : PasswordChange
  pub confirming_delete_account : Bool
  pub deleting_account : Bool
  pub delete_account_error : Option Str

-- The useState values of SettingsPage for a user.
unfoldable pub settings_form : CurrentUser → Settings
settings_form user = record {
  profile = record {
    first_name = or_else user.first_name [];
    last_name = or_else user.last_name [];
    dial_code = (parse_phone user.phone).dial_code;
    phone_number = (parse_phone user.phone).number;
    error = none;
    submitting = false;
  };
  saved = false;
  change = record {
    current_password = [];
    new_password = [];
    confirm_password = [];
    password_error = none;
    changing_password = false;
  };
  confirming_delete_account = false;
  deleting_account = false;
  delete_account_error = none;
}

-- onChange of the inputs of a profile, and of those of the password.
pub data ProfileInput : Type 0 where
  first_name last_name dial_code phone_number : ProfileInput

unfoldable pub type_profile : ProfileInput → Str → ProfileForm → ProfileForm
type_profile ProfileInput.first_name value f = record f { first_name = value }
type_profile ProfileInput.last_name value f = record f { last_name = value }
type_profile ProfileInput.dial_code value f = record f { dial_code = value }
type_profile ProfileInput.phone_number value f = record f { phone_number = value }

pub data ChangeInput : Type 0 where
  current_password new_password confirm_password : ChangeInput

unfoldable pub type_change : ChangeInput → Str → PasswordChange → PasswordChange
type_change ChangeInput.current_password value c = record c { current_password = value }
type_change ChangeInput.new_password value c = record c { new_password = value }
type_change ChangeInput.confirm_password value c = record c { confirm_password = value }

-- setConfirmingDeleteAccount, by the button and the dialog's cancel.
unfoldable pub ask_delete_account : Bool → Settings → Settings
ask_delete_account open_it s = record s { confirming_delete_account = open_it }

unfoldable pub profile_update : ProfileForm → ProfileUpdate
profile_update f = record {
  first_name = f.first_name;
  last_name = f.last_name;
  phone = stored_phone f.dial_code f.phone_number;
  password = none;
  current_password = none;
}

unfoldable pub profile_begin : ProfileForm → ProfileForm
profile_begin f = record f { error = none; submitting = true }

unfoldable pub profile_answer : Lang → Result (Unit {0}) → ProfileForm → ProfileForm
profile_answer lang (ok _) f = record f { submitting = false }
profile_answer lang (fail e) f = record f { error = some (error_text lang e); submitting = false }

abbrev is_ok {ℓ} : {A : Type ℓ} → Result A → Bool
is_ok (ok a) = true
is_ok (fail e) = false

-- What the password form sends: the names as the profile form has them, and the user's phone.
unfoldable pub password_update : CurrentUser → Settings → ProfileUpdate
password_update user s = record {
  first_name = s.profile.first_name;
  last_name = s.profile.last_name;
  phone = user.phone;
  password = some s.change.new_password;
  current_password = some s.change.current_password;
}

-- The password form's button is enabled.
unfoldable pub can_change : CurrentUser → PasswordChange → Bool
can_change user c = not (
    c.changing_password
    || is_empty c.new_password
    || (user.has_password && is_empty c.current_password))

unfoldable pub password_refused : Str → PasswordChange → PasswordChange
password_refused message c = record c { password_error = some message; changing_password = false }

-- api.clearToken(); window.location.assign("/login?password_changed=1")
unfoldable pub leave : {S : Type 0} → App S → App S
leave a = record a {
  session = record a.session {
    token = none;
    assigned = js "/login?password_changed=1" ∷ a.session.assigned;
  };
}

unfoldable pub change_answer :
    {S : Type 0} → Lang → Result (Unit {0}) × App S → PasswordChange → PasswordChange × App S
unfolding password_refused leave
change_answer lang (ok _, a) c = (c, leave a)
change_answer lang (fail e, a) c = (password_refused (error_text lang e) c, a)

unfoldable pub account_deleted : Lang → Result (Unit {0}) → Settings → Option Str × Settings
account_deleted lang (ok _) s = (some (js "/login"), s)
account_deleted lang (fail e) s = (
  none,
  record s {
    deleting_account = false;
    delete_account_error = some (message_or e (t lang (js "deleteAccountFailed") []));
  },
)

module _ {S : Type 0} (build : Build) (serve : S → HttpRequest → Option Response × S) where
  -- SettingsPage's handleProfileSubmit.
  unfoldable pub settings_submit : Settings → App S → Settings × App S
  unfolding profile_begin profile_answer profile_update
  settings_submit s a =
      let (r, a') = update_profile build serve (profile_update s.profile) a in
      (
        record s {
          profile = profile_answer a.session.lang r (profile_begin s.profile);
          saved = is_ok r;
        },
        a',
      )

  -- CompleteProfilePage's handleSubmit: the path that is navigated to, if any.
  unfoldable pub complete_submit : ProfileForm → App S → (Option Str × ProfileForm) × App S
  unfolding profile_begin profile_answer profile_update
  complete_submit f a =
      let (r, a') = update_profile build serve (profile_update f) a in
      (
        (
          if is_ok r then some (js "/") else none,
          profile_answer a.session.lang r (profile_begin f),
        ),
        a',
      )

  -- handlePasswordSubmit.
  unfoldable pub change_submit : CurrentUser → Settings → App S → PasswordChange × App S
  unfolding change_answer password_update
  change_submit user s a =
      if str_eq s.change.new_password s.change.confirm_password
      then change_answer a.session.lang (update_profile build serve (password_update user s) a)
          (record s.change { password_error = none; changing_password = true })
      else (
        record s.change { password_error = some (t a.session.lang (js "passwordsDontMatch") []) },
        a,
      )

  -- The whole of handleDeleteAccount: the path that is navigated to, if any.
  unfoldable pub delete_submit : Settings → App S → (Option Str × Settings) × App S
  unfolding account_deleted
  delete_submit s a =
      let (r, a') = delete_account build serve a in
      (
        account_deleted a.session.lang r (record s {
          confirming_delete_account = false;
          deleting_account = true;
          delete_account_error = none;
        }),
        a',
      )
