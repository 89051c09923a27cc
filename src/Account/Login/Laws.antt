-- ===== src/Account/Login/Laws.antt =====
-- LoginPage.tsx: what a sign-in from the form leads to.
use tidybridge.Base.{
  Bool-cases, Str, false, ◌≡◌, ◌≢◌, refl, ◌∙◌, ◌⊎◌, inl, inr, Option, none, some, truthy,
}
use tidybridge.Types.{CurrentUser}
use tidybridge.Client.Errors.{Result, ok, fail, Failure}
use tidybridge.Client.Request.{Build, HttpRequest, Response, Session}
use tidybridge.Client.Calls
use tidybridge.Auth.{
  App, set_token, login_with_password, logged_in, refresh_user, refreshed, sign_out,
}
use tidybridge.Auth.Laws.{IsRead, login_with_password_cases}
use tidybridge.Auth.Guard.{return_path, protected_route, to_login}
use tidybridge.Account.{RouterState}
use tidybridge.Account.Login.{LoginForm, login_begin, login_answer, login_submit}

nobody_to_login :
    {S : Type 0} (a : App S) (pathname : Str)
    → a.loading ≡ false
    → a.user ≡ none
    → protected_route a pathname ≡ to_login pathname
unfolding protected_route
nobody_to_login a pathname loaded nobody = simp (loaded, nobody)

module _ {S : Type 0} (build : Build) (serve : S → HttpRequest → Option Response × S) where
  -- A submitted sign-in always ends with the form ready again. Either it goes on to the remembered
  -- path, or to the home page, with no error, after the API gave a token and the profile was asked
  -- for with it: who is known then is who the API answered with, null included, with the token held;
  -- or nobody, with the token dropped if the API failed; an empty token asks nothing, and nobody is
  -- known. Or the API refused, and it stays, shows an error, keeps what was typed, and the user and
  -- the token are as they were.
  pub login_submit_cases :
      (state : RouterState) (f : LoginForm) (a : App S)
      → ((login_submit build serve state f a).0.1.submitting ≡ false)
        × ((((login_submit build serve state f a).0.0 ≡ some (return_path state.from))
              × ((login_submit build serve state f a).0.1.error ≡ none)
              × ((token : Str) × ((Calls.login build serve f.email f.password a.session).0
                    ≡ ok token)
                  × IsRead build serve
                      (record (Calls.login build serve f.email f.password a.session).1 {
                        token = some token;
                      })
                      (login_submit build serve state f a).1))
            ⊎ (((e : Failure) × ((Calls.login build serve f.email f.password a.session).0 ≡ fail e))
                × ((login_submit build serve state f a).0.0 ≡ none)
                × ((login_submit build serve state f a).0.1.error ≢ none)
                × ((login_submit build serve state f a).0.1.email ≡ f.email)
                × ((login_submit build serve state f a).0.1.password ≡ f.password)
                × ((login_submit build serve state f a).1.user ≡ a.user)
                × ((login_submit build serve state f a).1.session.token ≡ a.session.token)))
  unfolding login_submit login_answer login_begin
  login_submit_cases state f a = elim (login_with_password_cases build serve f.email f.password a) [
    | inl (token, given, done, read) ↦ rw done (refl, inl (refl, refl, (token, given, read)))
    | inr (e, refused, thrown, user, token) ↦
        rw thrown (refl, inr ((e, refused), refl, (λ h. cc), refl, refl, user, token))
  ]

  refresh_failed :
      (p : Result (Option CurrentUser) × Session S) (a : App S) (e : Failure)
      → p.0 ≡ fail e
      → ((refreshed p a).user ≡ none) × ((refreshed p a).loading ≡ a.loading)
  unfolding refreshed sign_out
  refresh_failed (ok u, w) a e h = cc
  refresh_failed (fail e', w) a e h = (refl, refl)

  refresh_unread :
      (a : App S) (e : Failure)
      → (Calls.get_current_user build serve a.session).0 ≡ fail e
      → ((refresh_user build serve a).user ≡ none)
        × ((refresh_user build serve a).loading ≡ a.loading)
  unfolding refresh_user
  refresh_unread a e h = elim (Bool-cases (truthy a.session.token)) [
    | inl held ↦ rw held (refresh_failed (Calls.get_current_user build serve a.session) a e h)
    | inr gone ↦ rw gone (refl, refl)
  ]

  -- If the API gives a token and then not the profile, for whatever reason, the sign-in shows no
  -- error and goes on, nobody is signed in, and the guard leads back to the sign-in page.
  pub login_submit_unread :
      (state : RouterState) (f : LoginForm) (a : App S) (token pathname : Str) (w : Session S)
      (e : Failure)
      → a.loading ≡ false
      → Calls.login build serve f.email f.password a.session ≡ (ok token, w)
      → (Calls.get_current_user build serve (record w { token = some token })).0 ≡ fail e
      → ((login_submit build serve state f a).0.0 ≡ some (return_path state.from))
        × ((login_submit build serve state f a).0.1.error ≡ none)
        × (protected_route (login_submit build serve state f a).1 pathname ≡ to_login pathname)
  unfolding login_submit login_answer login_begin login_with_password logged_in set_token
  login_submit_unread state f a token pathname w e loaded given unread =
      let b = set_token token (record a { session = w }) in
      let (nobody, same) = refresh_unread b e unread in
      rw given
        (refl, refl, nobody_to_login (refresh_user build serve b) pathname (same ∙ loaded) nobody)
