-- ===== src/Pages/Frame.antt =====
-- frontend/src/components/Layout.tsx: what stands around a page.
use tidybridge.Base.{refl, Str, js, false, ◌≡◌, Option, none, some, List, [], ◌∷◌}
use tidybridge.I18n.{Lang, t}
use tidybridge.Types.{CurrentUser}
use tidybridge.Client.Errors.{Result, ok, fail}
use tidybridge.Client.Request.{Build, HttpRequest, Response}
use tidybridge.Auth.{App, logout, sign_out}
use tidybridge.Auth.Guard.{protected_route, to_login}

abbrev after_logout : Result (Unit {0}) → Option Str
after_logout (ok _) = some (js "/login")
after_logout (fail e) = none

-- The header's links, each with its path, and the button of signing out.
unfoldable pub header_links : Lang → Option CurrentUser → List (Str × Str)
header_links lang none = []
header_links lang (some u) =
    (t lang (js "uploadHistory") [], js "/uploads")
    ∷ (t lang (js "accountSettings") [], js "/settings")
    ∷ []

unfoldable pub logout_button : Lang → Option CurrentUser → Option Str
logout_button lang none = none
logout_button lang (some u) = some (t lang (js "logOut") [])

module _ {S : Type 0} (build : Build) (serve : S → HttpRequest → Option Response × S) where
  -- handleLogout: the path that is navigated to, unless the call throws.
  unfoldable pub handle_logout : App S → Option Str × App S
  handle_logout a = let (r, a') = logout build serve a in (after_logout r, a')

  logged_out_view :
      (a : App S) (pathname : Str)
      → a.loading ≡ false
      → a.user ≡ none
      → protected_route a pathname ≡ to_login pathname
  unfolding protected_route
  logged_out_view a pathname loaded nobody = simp (loaded, nobody)

  -- Whatever the server answers to signing out, every protected page leads to the sign-in page after.
  pub protected_route-handle_logout :
      (a : App S) (pathname : Str)
      → a.loading ≡ false
      → protected_route (handle_logout a).1 pathname ≡ to_login pathname
  unfolding handle_logout logout sign_out
  protected_route-handle_logout a pathname loaded =
      logged_out_view (handle_logout a).1 pathname loaded refl
