-- ===== src/Auth/Guard/Laws.antt =====
-- ProtectedRoute.tsx and LoginPage.tsx: who sees a page, and that the redirects end.
use tidybridge.Base.{
  Str, js, str_eq_refl, Option-cases, str_eq_iff, true, false, ◌≡◌, refl, ◌↔◌, ◌⊎◌, inl, inr,
  Option, none, some, arith, starts_with, truthy,
}
use tidybridge.Types.{CurrentUser}
use tidybridge.Auth.{App, needs_profile}
use tidybridge.Auth.Guard.{to_profile, content, protected_route, return_path}

-- A protected page shows its content exactly if the session was checked, somebody is signed in,
-- and either has a first name or is on the profile page itself.
pub protected_route-eq-content_iff :
    {S : Type 0} (a : App S) (pathname : Str)
    → (protected_route a pathname ≡ content) ↔ (
        (a.loading ≡ false)
        × ((u : CurrentUser) × (a.user ≡ some u)
            × ((truthy u.first_name ≡ true) ⊎ (pathname ≡ js "/complete-profile"))))
unfolding protected_route needs_profile
protected_route-eq-content_iff a pathname = elim (Option-cases a.user) [
  | inl nobody ↦ (λ h. absurd (ground arith), λ h. absurd (ground arith))
  | inr (u, somebody) ↦ (
    λ h.
        (ground arith, (u, somebody, ground (arith, str_eq_iff pathname (js "/complete-profile")))),
    λ h. ground (arith, str_eq_iff pathname (js "/complete-profile")),
  )
]

-- The page that the guard sends to the profile form shows it: that redirect is not repeated.
pub to_profile_ends :
    {S : Type 0} (a : App S) (pathname : Str)
    → protected_route a pathname ≡ to_profile
    → protected_route a (js "/complete-profile") ≡ content
unfolding protected_route
to_profile_ends a pathname h = ground (arith, str_eq_refl (js "/complete-profile"))

-- The path after signing in begins with a slash and not with two, whatever path was remembered.
pub return_path_local :
    (from : Option Str)
    → (starts_with (return_path from) (js "/") ≡ true)
      × (starts_with (return_path from) (js "//") ≡ false)
unfolding return_path starts_with js
return_path_local none = (refl, refl)
return_path_local (some from) = ground arith
