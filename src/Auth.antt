-- ===== src/Auth.antt =====
-- frontend/src/auth/AuthContext.tsx: who is signed in. Its state is `user` and `loading`, over
-- the API client's session. React state that a handler sets is the field in the record returned.
-- A user that is `none` is null. After a 204 to /users/me it would be undefined, on which needsProfile
-- throws while it is rendered; this is not modelled, and `none` stands for it too.
pub mod Laws
pub mod Guard
use tidybridge.Base.{Str, Bool, true, false, not, ◌&&◌, Option, none, some, if◌then◌else◌, truthy}
use tidybridge.Types.{CurrentUser}
use tidybridge.Client.Errors.{Result, ok, fail}
use tidybridge.Client.Request.{Build, HttpRequest, Response, Session}
use tidybridge.Client.Calls
use tidybridge.Client.Calls.{ProfileUpdate}

pub record App (S : Type 0) : Type 0 where
  pub session : Session S
  pub user : Option CurrentUser
  pub loading : Bool

module _ {S : Type 0} where
  -- useState(null), useState(true)
  abbrev pub init : Session S → App S
  init w = record { session = w; user = none; loading = true }

  -- api.setToken(token)
  unfoldable pub set_token : Str → App S → App S
  set_token token a = record a { session = record a.session { token = some token } }

  -- api.clearToken(); setUser(null)
  unfoldable pub sign_out : App S → App S
  sign_out a = record a { session = record a.session { token = none }; user = none }

  unfoldable pub refreshed : Result (Option CurrentUser) × Session S → App S → App S
  refreshed (ok o, w) a = record a { session = w; user = o }
  refreshed (fail e, w) a = sign_out (record a { session = w })

  unfoldable pub needs_profile : App S → Bool
  needs_profile a = elim a.user [ none ↦ false | some u ↦ not (truthy u.first_name) ]

  unfoldable pub profile_updated :
      Result (Option CurrentUser) × Session S → App S → Result (Unit {0}) × App S
  profile_updated (ok o, w) a = (ok tt, record a { session = w; user = o })
  profile_updated (fail e, w) a = (fail e, record a { session = w })

  unfoldable pub deleted : Result (Unit {0}) × Session S → App S → Result (Unit {0}) × App S
  deleted (ok _, w) a = (ok tt, sign_out (record a { session = w }))
  deleted (fail e, w) a = (fail e, record a { session = w })

module _ {S : Type 0} (build : Build) (serve : S → HttpRequest → Option Response × S) where
  unfoldable pub refresh_user : App S → App S
  refresh_user a =
      if truthy a.session.token
      then refreshed (Calls.get_current_user build serve a.session) a
      else record a { user = none }

  -- The effect on mounting: refreshUser().finally(() => setLoading(false))
  unfoldable pub mount : App S → App S
  mount a = record (refresh_user a) { loading = false }

  unfoldable pub login_with_token : Str → App S → App S
  login_with_token token a = refresh_user (set_token token a)

  unfoldable pub logged_in : Result Str × Session S → App S → Result (Unit {0}) × App S
  logged_in (ok token, w) a = (ok tt, refresh_user (set_token token (record a { session = w })))
  logged_in (fail e, w) a = (fail e, record a { session = w })

  unfoldable pub login_with_password : Str → Str → App S → Result (Unit {0}) × App S
  login_with_password email password a =
      logged_in (Calls.login build serve email password a.session) a

  unfoldable pub update_profile : ProfileUpdate → App S → Result (Unit {0}) × App S
  update_profile input a = profile_updated (Calls.update_profile build serve input a.session) a

  -- try { … } finally { … }: signed out whatever the server says, and an error goes on.
  unfoldable pub logout : App S → Result (Unit {0}) × App S
  logout a =
      let (r, w) = Calls.logout build serve a.session in (r, sign_out (record a { session = w }))

  unfoldable pub delete_account : App S → Result (Unit {0}) × App S
  delete_account a = deleted (Calls.delete_account build serve a.session) a
