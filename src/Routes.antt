-- ===== src/Routes.antt =====
-- frontend/src/App.tsx: the table of routes. Which entry of it a path falls to is react-router's, a
-- parameter (`matched`).
pub mod Laws
use tidybridge.Base.{
  ℕ, zero, suc, Str, js, Bool, true, false, Option, none, some, if◌then◌else◌, truthy,
}
use tidybridge.Auth.{App}
use tidybridge.Auth.Guard.{View, spinner, to_login, to_profile, content, protected_route}

-- The entries, with the parameters of their paths.
pub data Route : Type 0 where
  login forgot_password reset_password accept_invite auth_callback : Route
  complete_profile home settings uploads : Route
  pilot_invite : Option Str → Route
  record_detail : Option Str → Route
  column_mapping : Option Str → Route
  any_other : Route

-- What is rendered: a page, the spinner, or <Navigate>.
pub data Screen : Type 0 where
  shows : Route → Screen
  waits : Screen
  goes_to : Str → Screen

-- The element of an entry, without <ProtectedRoute>; ColumnMappingReviewRoute wants a fingerprint.
unfoldable pub element : Route → Screen
element (column_mapping fingerprint) =
    if truthy fingerprint then shows (column_mapping fingerprint) else goes_to (js "/")
element any_other = goes_to (js "/")
element route = shows route

-- The entries that stand outside <ProtectedRoute>.
unfoldable pub is_public : Route → Bool
is_public login = true
is_public forgot_password = true
is_public reset_password = true
is_public accept_invite = true
is_public auth_callback = true
is_public any_other = true
is_public _ = false

unfoldable pub guarded : View → Route → Screen
guarded spinner route = waits
guarded (to_login from) route = goes_to (js "/login")
guarded to_profile route = goes_to (js "/complete-profile")
guarded content route = element route

abbrev pub then_follow : (Str → Option (Str × Screen)) → Str → Screen → Option (Str × Screen)
then_follow again pathname (goes_to path) = again path
then_follow again pathname (shows route) = some (pathname, shows route)
then_follow again pathname waits = some (pathname, waits)

module _ {S : Type 0} (matched : Str → Route) where
  unfoldable pub screen : App S → Str → Screen
  screen a pathname =
      if is_public (matched pathname)
      then element (matched pathname)
      else guarded (protected_route a pathname) (matched pathname)

  -- Where the redirects end and what is shown there; `none` if they take more than the fuel.
  unfoldable pub follow : ℕ → App S → Str → Option (Str × Screen)
  unfolding screen
  follow zero a pathname = none
  follow (suc fuel) a pathname = then_follow (follow fuel a) pathname (screen a pathname)
