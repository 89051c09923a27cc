-- ===== src/Pages/Callback.antt =====
-- frontend/src/pages/OAuthCallbackPage.tsx. `token_of` is URLSearchParams(…).get("access_token").
use tidybridge.Base.{
  Str, js, Bool, true, false, ◌≡◌, refl, Bool-cases, inl, inr, Option, none, some, [],
  if◌then◌else◌, drop, truthy, or_else,
}
use tidybridge.I18n.{Lang, t}
use tidybridge.Client.Request.{Build, HttpRequest, Response}
use tidybridge.Auth.{App, login_with_token}

pub record Callback : Type 0 where
  pub handled : Bool
  pub error : Option Str
  -- The path that is navigated to.
  pub visits : Option Str
  -- What is left of the address behind "#".
  pub fragment : Str

abbrev pub arrived : Str → Callback
arrived hash = record { handled = false; error = none; visits = none; fragment = hash }

module _ {S : Type 0} (build : Build) (serve : S → HttpRequest → Option Response × S)
    (token_of : Str → Option Str) where
  -- loginWithToken throws nothing: refreshUser catches what the API throws. So it is `then` that
  -- runs, and `catch` never.
  unfoldable pub callback_effect : Lang → Callback × App S → Callback × App S
  callback_effect lang (c, a) =
      let token = token_of (drop 1 c.fragment) in
      if c.handled
      then (c, a)
      else if truthy token
      then (
        record { handled = true; error = c.error; visits = some (js "/"); fragment = [] },
        login_with_token build serve (or_else token []) a,
      )
      else (record c { handled = true; error = some (t lang (js "githubNoToken") []) }, a)

  -- The effect that runs twice does what it does once: the token is used one time.
  pub callback_effect_twice :
      (lang : Lang) (hash : Str) (a : App S)
      → callback_effect lang (callback_effect lang (arrived hash, a))
        ≡ callback_effect lang (arrived hash, a)
  unfolding callback_effect
  callback_effect_twice lang hash a = elim (Bool-cases (truthy (token_of (drop 1 hash)))) [
    | inl given ↦ rw given refl
    | inr missing ↦ rw missing refl
  ]
