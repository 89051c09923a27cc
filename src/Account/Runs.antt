-- ===== src/Account/Runs.antt =====
-- frontend/src/auth/AuthContext.tsx and the pages that change who is signed in: what the application
-- goes through, one event after another, over the state of AuthProvider.
pub mod Phases
pub mod Sessions
pub mod Refines
use tidybridge.Base.{Str, Option, none, some, List, [], ◌∷◌}
use tidybridge.Types.{CurrentUser}
use tidybridge.Client.Request.{Build, HttpRequest, Response, Options, request}
use tidybridge.Client.Calls.{as_void}
use tidybridge.Auth.{App, init, mount, login_with_token, logout}
use tidybridge.Account.{RouterState}
use tidybridge.Account.Login.{LoginForm, login_submit}
use tidybridge.Account.Profile.{
  ProfileForm, Settings, settings_submit, complete_submit, change_submit, delete_submit,
}

-- What can happen: a form is submitted, a sign-in with GitHub comes back with its token, the user
-- signs out, a page makes another request, or the application is loaded again.
pub data Event : Type 0 where
  signs_in : RouterState → LoginForm → Event
  comes_back : Str → Event
  completes_profile : ProfileForm → Event
  saves_profile : Settings → Event
  changes_password : Settings → Event
  deletes_account : Settings → Event
  signs_out : Event
  calls : Str → Options → Event
  reloads : Event

-- These pages stand behind ProtectedRoute: without a user there is no form to submit.
abbrev pub if_known : {S : Type 0} → Option CurrentUser → (CurrentUser → App S) → App S → App S
if_known none next a = a
if_known (some u) next a = next u

module _ {S : Type 0} (build : Build) (serve : S → HttpRequest → Option Response × S) where
  unfoldable pub after : Event → App S → App S
  after (signs_in state f) a = (login_submit build serve state f a).1
  after (comes_back token) a = login_with_token build serve token a
  after (completes_profile f) a = if_known a.user (λ u. (complete_submit build serve f a).1) a
  after (saves_profile s) a = if_known a.user (λ u. (settings_submit build serve s a).1) a
  after (changes_password s) a = if_known a.user (λ u. (change_submit build serve u s a).1) a
  after (deletes_account s) a = if_known a.user (λ u. (delete_submit build serve s a).1) a
  after signs_out a = (logout build serve a).1
  after (calls path opts) a = record a {
    session = (request build serve as_void path opts a.session).1;
  }
  after reloads a = mount build serve (init a.session)

  unfoldable pub run : List Event → App S → App S
  run [] a = a
  run (e ∷ es) a = run es (after e a)
