-- ===== src/Tests/Routes.antt =====
-- The routes at concrete inputs.
use tidybridge.Base.{Str, js, str_eq, true, false, ◌≡◌, refl, ◌⊎◌, some, if◌then◌else◌, truthy}
use tidybridge.Types.{CurrentUser}
use tidybridge.Auth.{App, init, needs_profile}
use tidybridge.Auth.Guard.{protected_route}
use tidybridge.Routes.{
  Route, home, login, complete_profile, settings, any_other, screen, shows, is_public, guarded,
  element, follow,
}
use tidybridge.Routes.Laws.{HasEnded, screen-shows, follow_ends}
use tidybridge.Tests.Samples.{signed_in, someone}

-- Four of the paths.
abbrev paths : Str → Route
paths p =
    if str_eq p (js "/")
    then home
    else if str_eq p (js "/login")
    then login
    else if str_eq p (js "/complete-profile")
    then complete_profile
    else if str_eq p (js "/settings")
    then settings
    else any_other

abbrev opened : App (Unit {0})
opened = record (init signed_in) { user = some someone; loading = false }

settings_shown : screen paths opened (js "/settings") ≡ shows settings
unfolding screen is_public guarded element protected_route needs_profile str_eq js
settings_shown = refl

screen-shows_example :
    (settings ≡ paths (js "/settings"))
    × (false ≡ false)
    × ((u : CurrentUser) × (some someone ≡ some u)
        × ((truthy u.first_name ≡ true) ⊎ (js "/settings" ≡ js "/complete-profile")))
screen-shows_example = screen-shows paths opened (js "/settings") settings settings_shown tt

home_path : paths (js "/") ≡ home
unfolding str_eq js
home_path = refl

login_path : paths (js "/login") ≡ login
unfolding str_eq js
login_path = refl

profile_path : paths (js "/complete-profile") ≡ complete_profile
unfolding str_eq js
profile_path = refl

follow_ends_example : HasEnded (follow paths 3 (init signed_in) (js "/nowhere"))
follow_ends_example =
    follow_ends paths home_path login_path profile_path (init signed_in) (js "/nowhere")
