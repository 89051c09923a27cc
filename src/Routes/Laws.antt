-- ===== src/Routes/Laws.antt =====
-- App.tsx: the redirects end, and what they end at.
use tidybridge.Base.{
  ℕ, suc, Str, js, Bool, true, false, ◌≡◌, refl, ◌⊎◌, inl, inr, Option, none, some, Bool-cases,
  truthy, arith,
}
use tidybridge.Types.{CurrentUser}
use tidybridge.Auth.{App}
use tidybridge.Auth.Guard.{View, spinner, to_login, to_profile, content, protected_route}
use tidybridge.Auth.Guard.Laws.{protected_route-eq-content_iff, to_profile_ends}
use tidybridge.Routes.{
  Route, login, complete_profile, home, settings, uploads, pilot_invite, record_detail,
  forgot_password, reset_password, accept_invite, auth_callback, any_other, column_mapping, Screen,
  shows, waits, goes_to, element, is_public, guarded, screen, follow, then_follow,
}

element-shows : (route r : Route) → element route ≡ shows r → r ≡ route
unfolding element
element-shows route r h = ground arith

guarded-shows :
    (v : View) (route r : Route) → guarded v route ≡ shows r → (v ≡ content) × (r ≡ route)
unfolding guarded
guarded-shows spinner route r h = cc
guarded-shows (to_login from) route r h = cc
guarded-shows to_profile route r h = cc
guarded-shows content route r h = (refl, element-shows route r h)

-- The pages of a user's own data.
abbrev pub IsPrivate : Route → Type 0
IsPrivate login = ⊥
IsPrivate forgot_password = ⊥
IsPrivate reset_password = ⊥
IsPrivate accept_invite = ⊥
IsPrivate auth_callback = ⊥
IsPrivate any_other = ⊥
IsPrivate _ = Unit

private_guarded : (r : Route) → IsPrivate r → is_public r ≡ false
unfolding is_public
private_guarded login h = absurd h
private_guarded forgot_password h = absurd h
private_guarded reset_password h = absurd h
private_guarded accept_invite h = absurd h
private_guarded auth_callback h = absurd h
private_guarded any_other h = absurd h
private_guarded complete_profile h = refl
private_guarded home h = refl
private_guarded settings h = refl
private_guarded uploads h = refl
private_guarded (pilot_invite id) h = refl
private_guarded (record_detail id) h = refl
private_guarded (column_mapping fingerprint) h = refl

module _ {S : Type 0} (matched : Str → Route) where
  -- A page of a user's own data is shown only where its path leads, to somebody who is signed in,
  -- once the session was checked, and who has a first name or is on the page that asks for it.
  pub screen-shows :
      (a : App S) (pathname : Str) (r : Route)
      → screen matched a pathname ≡ shows r
      → IsPrivate r
      → (r ≡ matched pathname)
        × (a.loading ≡ false)
        × ((u : CurrentUser) × (a.user ≡ some u)
            × ((truthy u.first_name ≡ true) ⊎ (pathname ≡ js "/complete-profile")))
  unfolding screen
  screen-shows a pathname r h private = elim (Bool-cases (is_public (matched pathname))) [
    | inl public ↦
        let same = element-shows (matched pathname) r (rw public at h) in
        absurd (ground (arith, public, rw same at (private_guarded r private)))
    | inr behind ↦
        let (shown, same) =
          guarded-shows (protected_route a pathname) (matched pathname) r (rw behind at h) in
        let (loaded, somebody) = (protected_route-eq-content_iff a pathname).0 shown in
        (same, loaded, somebody)
  ]

abbrev redirects : Screen → Bool
redirects (goes_to path) = true
redirects (shows route) = false
redirects waits = false

-- The redirects have ended, on a page or on the spinner.
abbrev pub HasEnded : Option (Str × Screen) → Type 0
HasEnded r = (q : Str) × (s : Screen) × (r ≡ some (q, s)) × (redirects s ≡ false)

module _ {S : Type 0} (matched : Str → Route) (at_home : matched (js "/") ≡ home)
    (at_login : matched (js "/login") ≡ login)
    (at_profile : matched (js "/complete-profile") ≡ complete_profile) where
  login_ends : (n : ℕ) (a : App S) → HasEnded (follow matched (suc n) a (js "/login"))
  unfolding follow screen is_public element
  login_ends n a = rw at_login (js "/login", shows login, refl, refl)

  profile_ends :
      (n : ℕ) (a : App S)
      → protected_route a (js "/complete-profile") ≡ content
      → HasEnded (follow matched (suc n) a (js "/complete-profile"))
  unfolding follow screen is_public element guarded
  profile_ends n a shown =
      rw (at_profile, shown) (js "/complete-profile", shows complete_profile, refl, refl)

  home_ends : (n : ℕ) (a : App S) → HasEnded (follow matched (suc (suc n)) a (js "/"))
  unfolding follow screen is_public element guarded
  home_ends n a = go (protected_route a (js "/")) refl
    where
      go :
          (v : View)
          → protected_route a (js "/") ≡ v
          → HasEnded (follow matched (suc (suc n)) a (js "/"))
      go spinner h = rw (at_home, h) (js "/", waits, refl, refl)
      go (to_login from) h = rw (at_home, h) (login_ends n a)
      go to_profile h = rw (at_home, h) (profile_ends n a (to_profile_ends a (js "/") h))
      go content h = rw (at_home, h) (js "/", shows home, refl, refl)

  element_ends :
      (a : App S) (p : Str) (route : Route)
      → HasEnded (then_follow (follow matched 2 a) p (element route))
  unfolding element
  element_ends a p any_other = home_ends 0 a
  element_ends a p (column_mapping none) = home_ends 0 a
  element_ends a p (column_mapping (some fingerprint)) =
      elim (Bool-cases (truthy (some fingerprint))) [
        | inl given ↦ rw given (p, shows (column_mapping (some fingerprint)), refl, refl)
        | inr missing ↦ rw missing (home_ends 0 a)
      ]
  element_ends a p route = (p, shows route, refl, refl)

  -- From any path, for anybody, at most two redirects lead to a page or to the spinner: the guard
  -- and the fallback never send one round in a circle.
  pub follow_ends : (a : App S) (pathname : Str) → HasEnded (follow matched 3 a pathname)
  unfolding follow screen guarded
  follow_ends a pathname = elim (Bool-cases (is_public (matched pathname))) [
    | inl public ↦ rw public (element_ends a pathname (matched pathname))
    | inr private ↦ rw private (go (protected_route a pathname) refl)
  ]
    where
      go :
          (v : View)
          → protected_route a pathname ≡ v
          → HasEnded (
              then_follow
                (follow matched 2 a)
                pathname
                (guarded (protected_route a pathname) (matched pathname)))
      go spinner h = rw h (pathname, waits, refl, refl)
      go (to_login from) h = rw h (login_ends 1 a)
      go to_profile h = rw h (profile_ends 1 a (to_profile_ends a pathname h))
      go content h = rw h (element_ends a pathname (matched pathname))
