-- ===== src/Account/Runs/Phases.antt =====
-- What AuthProvider and the pages around it promise, without tokens, requests or answers: who is
-- signed in, as a state machine, and which states of the application are in which of its states.
use tidybridge.Base.{Str, js, true, false, ◌≡◌, ◌⊎◌, none, some, List, [], ◌∷◌, truthy}
use tidybridge.Types.{CurrentUser}
use tidybridge.Client.Request.{Options}
use tidybridge.Auth.{App}
use tidybridge.Account.{RouterState}
use tidybridge.Account.Login.{LoginForm}
use tidybridge.Account.Profile.{ProfileForm, Settings}
use tidybridge.Account.Runs.{
  Event, signs_in, comes_back, completes_profile, saves_profile, changes_password, deletes_account,
  signs_out, calls, reloads,
}

-- Nobody is signed in; somebody is; there is a session, and null was answered for whose it is; or
-- the session of somebody is over, and the browser is on its way to the login page.
pub data Phase : Type 0 where
  nobody nameless : Phase
  member leaving : CurrentUser → Phase

-- A request may end the session.
pub data Lapse : Phase → Phase → Type 0 where
  kept : {p : Phase} → Lapse p p
  lapsed : {u : CurrentUser} → Lapse (member u) (leaving u)
  nameless_lapsed : Lapse nameless nobody

-- A change of the profile may give the user other data, or none.
pub data Renewal : Phase → Phase → Type 0 where
  only : {p q : Phase} → Lapse p q → Renewal p q
  member_renewed : {u v : CurrentUser} → Renewal (member u) (member v)
  leaving_renewed : {u v : CurrentUser} → Renewal (leaving u) (leaving v)
  member_lost : {u : CurrentUser} → Renewal (member u) nameless
  leaving_lost : {u : CurrentUser} → Renewal (leaving u) nobody

-- A profile that was asked for is there, or is null, or nobody is signed in.
pub data Fresh : Phase → Type 0 where
  missing : Fresh nobody
  unnamed : Fresh nameless
  found : {u : CurrentUser} → Fresh (member u)

pub data Move : Event → Phase → Phase → Type 0 where
  sign_in :
      {p q : Phase} {state : RouterState} {f : LoginForm} → Fresh q → Move (signs_in state f) p q
  sign_in_refused : {p : Phase} {state : RouterState} {f : LoginForm} → Move (signs_in state f) p p
  come_back : {p q : Phase} {token : Str} → Fresh q → Move (comes_back token) p q
  complete : {p q : Phase} {f : ProfileForm} → Renewal p q → Move (completes_profile f) p q
  save : {p q : Phase} {s : Settings} → Renewal p q → Move (saves_profile s) p q
  change_refused : {p q : Phase} {s : Settings} → Lapse p q → Move (changes_password s) p q
  change :
      {p : Phase} {s : Settings} {u v : CurrentUser}
      → (p ≡ member u) ⊎ (p ≡ leaving u)
      → Move (changes_password s) p (leaving v)
  change_lost :
      {p : Phase} {s : Settings} {u : CurrentUser}
      → (p ≡ member u) ⊎ (p ≡ leaving u)
      → Move (changes_password s) p nobody
  delete : {p : Phase} {s : Settings} → Move (deletes_account s) p nobody
  delete_refused : {p q : Phase} {s : Settings} → Lapse p q → Move (deletes_account s) p q
  signed_off : {p : Phase} → Move signs_out p nobody
  call : {p q : Phase} {path : Str} {opts : Options} → Lapse p q → Move (calls path opts) p q
  loaded_again : {p q : Phase} → Fresh q → Move reloads p q

pub data Moves : List Event → Phase → Phase → Type 0 where
  no_move : {p : Phase} → Moves [] p p
  then_moves :
      {e : Event} {es : List Event} {p q r : Phase} → Move e p q → Moves es q r → Moves (e ∷ es) p r

-- The latest address that was gone to is the login page, with one of its two reasons.
abbrev pub LeadsToLogin : List Str → Type 0
LeadsToLogin assigned =
    (path : Str) × (rest : List Str) × (assigned ≡ path ∷ rest)
    × ((path ≡ js "/login?expired=1") ⊎ (path ≡ js "/login?password_changed=1"))

abbrev pub HasPhase : {S : Type 0} → Phase → App S → Type 0
HasPhase nobody a = (a.user ≡ none) × (truthy a.session.token ≡ false)
HasPhase nameless a = (a.user ≡ none) × (truthy a.session.token ≡ true)
HasPhase (member u) a = (a.user ≡ some u) × (truthy a.session.token ≡ true)
HasPhase (leaving u) a =
    (a.user ≡ some u) × (truthy a.session.token ≡ false) × LeadsToLogin a.session.assigned

-- A state of the application that is in a phase, with the session checked.
abbrev pub IsIn : {S : Type 0} → Phase → App S → Type 0
IsIn p a = (a.loading ≡ false) × HasPhase p a
