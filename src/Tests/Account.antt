-- ===== src/Tests/Account.antt =====
-- The forms of signing in, passwords and profiles, the routes, and runs of the application, at
-- concrete inputs.
use tidybridge.Client.Request.Laws.{IsExpired}
use tidybridge.Base.{
  Str, js, Bool, true, false, ◌≡◌, ◌≢◌, refl, ◌⊎◌, Option, none, some, List, [], ◌∷◌, lookup,
  str_eq, if◌then◌else◌,
}
use tidybridge.Types.{CurrentUser}
use tidybridge.I18n.{t}
use tidybridge.Client.Errors.{Result, ok, fail, Failure, api_error, message_or}
use tidybridge.Client.Request.{
  HttpRequest, Response, Payload, Session, Value, request, settle, expire, payload_of, Method, get,
}
use tidybridge.Client.Calls
use tidybridge.Client.Calls.{profile_body, accept_invite, forgot_password}
use tidybridge.Auth.{App, init}
use tidybridge.Auth.Laws.{IsRead}
use tidybridge.Auth.Guard.{return_path, protected_route, to_login}
use tidybridge.Account.{no_state, Visit, error_text}
use tidybridge.Account.Login.{LoginForm, login_form, login_submit}
use tidybridge.Account.Login.Laws.{login_submit_cases, login_submit_unread}
use tidybridge.Account.Passwords.{PasswordForm, empty_form, accept_invite_submit}
use tidybridge.Account.Passwords.Laws.{
  IsMismatch, IsRefused, OpensLogin, accept_invite_submit_cases,
}
use tidybridge.Account.Forgotten.{ForgotForm, forgot_submit}
use tidybridge.Account.Forgotten.Laws.{IsTold, forgot_submit_alike}
use tidybridge.Account.Profile.{
  Settings, PasswordChange, settings_form, password_update, can_change, change_submit,
  delete_submit,
}
use tidybridge.Account.Profile.Laws.{change_submit_cases, delete_submit_cases}
use tidybridge.Account.Runs.{Event, signs_in, signs_out, run}
use tidybridge.Account.Runs.Phases.{Phase, member, Moves, IsIn}
use tidybridge.Account.Runs.Sessions.{IsKept}
use tidybridge.Account.Runs.Refines.{run-Moves, run_phase}
use tidybridge.Tests.Samples.{api, answer, signed_in, someone}

-- A server that knows one user, and one that is not there.
abbrev friendly : Unit {0} → HttpRequest → Option Response × Unit {0}
friendly s r = (answer (Payload.user someone), s)

-- One that gives a token, and knows the user.
abbrev given : Method → Payload
given get = Payload.user someone
given _ = Payload.access_token (js "new")

abbrev generous : Unit {0} → HttpRequest → Option Response × Unit {0}
generous s r = (answer (given r.method), s)

abbrev absent : Unit {0} → HttpRequest → Option Response × Unit {0}
absent s r = (none, s)

abbrev opened : App (Unit {0})
opened = record (init signed_in) { user = some someone; loading = false }

abbrev typed_in : LoginForm
typed_in = record (login_form no_state) { email = js "ana@example.com"; password = js "secret" }

abbrev tried : (Option Str × LoginForm) × App (Unit {0})
tried = login_submit api generous no_state typed_in opened

login_submit_cases_example :
    (tried.0.1.submitting ≡ false)
    × (((tried.0.0 ≡ some (return_path none))
          × (tried.0.1.error ≡ none)
          × ((token : Str) × ((Calls.login api generous
                  (js "ana@example.com")
                  (js "secret")
                  opened.session).0
                ≡ ok token)
              × IsRead api generous
                  (record (Calls.login api generous
                    (js "ana@example.com")
                    (js "secret")
                    opened.session).1 { token = some token })
                  tried.1))
        ⊎ (((e : Failure) × ((Calls.login api generous
                  (js "ana@example.com")
                  (js "secret")
                  opened.session).0
                ≡ fail e))
            × (tried.0.0 ≡ none)
            × (tried.0.1.error ≢ none)
            × (tried.0.1.email ≡ js "ana@example.com")
            × (tried.0.1.password ≡ js "secret")
            × (tried.1.user ≡ some someone)
            × (tried.1.session.token ≡ some (js "tok"))))
login_submit_cases_example = login_submit_cases api generous no_state typed_in opened

-- A server that gives a token and is gone then.
abbrev leaves_off : Bool → HttpRequest → Option Response × Bool
leaves_off false r = (answer (Payload.access_token (js "new")), true)
leaves_off true r = (none, true)

abbrev signed_out : Session Bool
signed_out = record { server = false; token = none; assigned = []; lang = signed_in.lang }

abbrev closed : App Bool
closed = record (init signed_out) { loading = false }

abbrev left_off : Session Bool
left_off = record signed_out { server = true }

token_given :
    Calls.login api leaves_off (js "ana@example.com") (js "secret") signed_out
    ≡ (ok (js "new"), left_off)
unfolding Calls.login request settle expire payload_of tidybridge.Client.Request.contains js
    tidybridge.Base.starts_with
token_given = refl

abbrev offline : Failure
offline =
    api_error (record { status = 0; message = t signed_in.lang (js "err_offline") []; code = none })

profile_unread :
    (Calls.get_current_user api leaves_off (record left_off { token = some (js "new") })).0
    ≡ fail offline
unfolding Calls.get_current_user request settle
profile_unread = refl

login_submit_unread_example :
    ((login_submit api leaves_off no_state typed_in closed).0.0 ≡ some (return_path none))
    × ((login_submit api leaves_off no_state typed_in closed).0.1.error ≡ none)
    × (protected_route (login_submit api leaves_off no_state typed_in closed).1 (js "/")
        ≡ to_login (js "/"))
login_submit_unread_example =
    login_submit_unread api leaves_off no_state typed_in closed (js "new") (js "/") left_off offline
      refl token_given profile_unread

abbrev chosen : PasswordForm
chosen = record empty_form { password = js "secret-1"; confirm_password = js "secret-1" }

abbrev invited : (Option Visit × PasswordForm) × Session (Unit {0})
invited = accept_invite_submit api absent (js "link") chosen signed_in

accept_invite_submit_cases_example :
    ((js "secret-1" ≢ js "secret-1") × IsMismatch chosen signed_in invited)
    ⊎ ((js "secret-1" ≡ js "secret-1")
        × (((email : Str) × ((accept_invite api absent (js "link") (js "secret-1") signed_in).0
                ≡ ok email)
              × OpensLogin signed_in.lang email
                  (t signed_in.lang (js "inviteAcceptedSignIn") [])
                  invited.0.0)
            ⊎ IsRefused chosen signed_in invited))
accept_invite_submit_cases_example =
    accept_invite_submit_cases api absent (js "link") chosen signed_in

abbrev forgotten : ForgotForm
forgotten = record {
  email = js "ana@example.com";
  submitting = false;
  outcome = none;
  error = none;
}

forgot_submit_alike_example :
    (forgot_submit api friendly forgotten signed_in).0
      ≡ (forgot_submit api absent forgotten signed_in).0
    ⊎ (IsTold (forgot_password api friendly (js "ana@example.com") signed_in).0
        ⊎ IsTold (forgot_password api absent (js "ana@example.com") signed_in).0)
forgot_submit_alike_example = forgot_submit_alike api friendly absent forgotten signed_in signed_in

abbrev edited_settings : Settings
edited_settings = record (settings_form someone) {
  change = record {
    current_password = js "secret";
    new_password = js "secret-1";
    confirm_password = js "secret-1";
    password_error = none;
    changing_password = false;
  };
}

button_enabled : can_change someone edited_settings.change ≡ true
unfolding can_change js
button_enabled = refl

abbrev changing : PasswordChange × App (Unit {0})
changing = change_submit api friendly someone edited_settings opened

abbrev asked : Result (Option CurrentUser) × Session (Unit {0})
asked = Calls.update_profile api friendly (password_update someone edited_settings) signed_in

change_submit_cases_example :
    ((js "secret-1" ≢ js "secret-1")
      × (changing ≡ (
        record edited_settings.change {
          password_error = some (t signed_in.lang (js "passwordsDontMatch") []);
        },
        opened,
      )))
    ⊎ ((js "secret-1" ≡ js "secret-1")
        × (((changing.1.session.token ≡ none)
              × (changing.1.session.assigned ≡ js "/login?password_changed=1" ∷ asked.1.assigned)
              × ((o : Option CurrentUser) × (asked.0 ≡ ok o)))
            ⊎ ((e : Failure) × (asked.0 ≡ fail e)
                × (changing.0 ≡ record edited_settings.change {
                  password_error = some (error_text signed_in.lang e);
                  changing_password = false;
                })
                × (changing.1.user ≡ some someone))))
change_submit_cases_example = change_submit_cases api friendly someone edited_settings opened

abbrev deleting : (Option Str × Settings) × App (Unit {0})
deleting = delete_submit api absent edited_settings opened

delete_submit_cases_example :
    (deleting.0.1.confirming_delete_account ≡ false)
    × (((deleting.0.0 ≡ some (js "/login"))
          × (deleting.1.user ≡ none)
          × (deleting.1.session.token ≡ none))
        ⊎ ((e : Failure) × ((Calls.delete_account api absent signed_in).0 ≡ fail e)
            × (deleting.0.0 ≡ none)
            × (deleting.0.1.deleting_account ≡ false)
            × (deleting.0.1.delete_account_error
                ≡ some (message_or e (t signed_in.lang (js "deleteAccountFailed") [])))
            × (deleting.1.user ≡ some someone)
            × (((deleting.1.session.token ≡ some (js "tok"))
                  × (deleting.1.session.assigned ≡ signed_in.assigned))
                ⊎ ((deleting.1.session.token ≡ none)
                    × (deleting.1.session.assigned ≡ js "/login?expired=1" ∷ signed_in.assigned)
                    × IsExpired signed_in.lang (Calls.delete_account api absent signed_in).0))))
delete_submit_cases_example = delete_submit_cases api absent edited_settings opened

abbrev two_events : List Event
two_events = signs_in no_state typed_in ∷ signs_out ∷ []

opened-IsIn : IsIn (member someone) opened
unfolding js
opened-IsIn = (refl, (refl, refl))

run-Moves_example :
    (q : Phase) × Moves two_events (member someone) q × IsIn q (run api friendly two_events opened)
run-Moves_example = run-Moves api friendly two_events (member someone) opened opened-IsIn

run_phase_example : IsKept (run api friendly two_events opened)
run_phase_example = run_phase api friendly two_events (member someone) opened opened-IsIn
