-- ===== src/Auth/Guard.antt =====
-- frontend/src/components/ProtectedRoute.tsx, and where LoginPage.tsx goes after signing in.
pub mod Laws
use tidybridge.Base.{
  Str, js, str_eq, Bool, true, false, not, ◌&&◌, Option, none, some, if◌then◌else◌, starts_with,
  or_else,
}
use tidybridge.Auth.{App, needs_profile}

-- What a protected route shows: the spinner, the login page (which remembers the path), the
-- profile form, or its own content.
pub data View : Type 0 where
  spinner : View
  to_login : Str → View
  to_profile : View
  content : View

unfoldable pub protected_route : {S : Type 0} → App S → Str → View
protected_route a pathname = if a.loading then spinner else elim a.user [
  | none ↦ to_login pathname
  | some u ↦
      if needs_profile a && not (str_eq pathname (js "/complete-profile"))
      then to_profile
      else content
]

-- state?.from?.startsWith("/") && !state.from.startsWith("//") ? state.from : "/"
unfoldable pub return_path : Option Str → Str
return_path none = js "/"
return_path (some from) =
    if starts_with from (js "/") && not (starts_with from (js "//")) then from else js "/"
