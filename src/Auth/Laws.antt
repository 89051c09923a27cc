-- ===== src/Auth/Laws.antt =====
-- AuthContext.tsx: who is known, and which token is held, after each of its operations.
use tidybridge.Base.{
  Str, js, sym, ◌∙◌, true, ◌≡◌, ◌∷◌, refl, ◌⊎◌, inl, inr, Option, none, truthy, Bool-cases, false,
  some,
}
use mathlib.Core.Bool.{false≢true}
use tidybridge.Types.{CurrentUser}
use tidybridge.Client.Errors.{Result, ok, fail, Failure}
use tidybridge.Client.Request.{Build, HttpRequest, Response, Session, defaults, delete}
use tidybridge.Client.Request.Laws.{request-token, IsExpired}
use tidybridge.Client.Calls
use tidybridge.Client.Calls.{as_user, as_token, as_void, login_options, with_method}
use tidybridge.Auth.{
  App, set_token, sign_out, refreshed, refresh_user, logged_in, login_with_password, logout,
  deleted, delete_account,
}

-- Without a token nobody is known.
abbrev pub IsSettled : {S : Type 0} → App S → Type 0
IsSettled a = (a.user ≡ none) ⊎ (truthy a.session.token ≡ true)

ok≢fail {ℓ} : {A : Type ℓ} {x : A} {e : Failure} → Path (Result A) (ok x) (fail e) → ⊥
ok≢fail h = cc

module _ {S : Type 0} (build : Build) (serve : S → HttpRequest → Option Response × S) where
  -- What asking for the profile in the session `w` leads to: without a token nothing is asked and
  -- nobody is known; else it is who the API answers with, null for no user included, and the token
  -- stays; or the API fails, nobody is known and the token is dropped.
  abbrev pub IsRead : Session S → App S → Type 0
  IsRead w a =
      ((truthy w.token ≡ false) × (a.user ≡ none) × (a.session.token ≡ w.token))
      ⊎ ((truthy w.token ≡ true)
          × (((o : Option CurrentUser) × ((Calls.get_current_user build serve w).0 ≡ ok o)
                × (a.user ≡ o)
                × (a.session.token ≡ w.token))
              ⊎ ((e : Failure) × ((Calls.get_current_user build serve w).0 ≡ fail e)
                  × (a.user ≡ none)
                  × (a.session.token ≡ none))))

  -- A profile that is fetched leaves the token as it was.
  current_user-token :
      (w : Session S) (o : Option CurrentUser)
      → (Calls.get_current_user build serve w).0 ≡ ok o
      → (Calls.get_current_user build serve w).1.token ≡ w.token
  unfolding Calls.get_current_user
  current_user-token w o h = elim (request-token build serve as_user (js "/users/me") defaults w) [
    | inl (same, _) ↦ same
    | inr (_, _, _, (code, failed)) ↦ absurd (ok≢fail (sym h ∙ failed))
  ]

  refreshed_cases :
      (p : Result (Option CurrentUser) × Session S) (a : App S)
      → ((o : Option CurrentUser) × (p.0 ≡ ok o)
          × ((refreshed p a).user ≡ o)
          × ((refreshed p a).session.token ≡ p.1.token))
        ⊎ ((e : Failure) × (p.0 ≡ fail e)
            × ((refreshed p a).user ≡ none)
            × ((refreshed p a).session.token ≡ none))
  unfolding refreshed sign_out
  refreshed_cases (ok o, w) a = inl (o, refl, refl, refl)
  refreshed_cases (fail e, w) a = inr (e, refl, refl, refl)

  refresh_user-IsRead : (a : App S) → IsRead a.session (refresh_user build serve a)
  unfolding refresh_user
  refresh_user-IsRead a = elim (Bool-cases (truthy a.session.token)) [
    | inl signed ↦ rw signed (
        inr (
          refl,
          elim (refreshed_cases (Calls.get_current_user build serve a.session) a) [
            | inl (o, given, user, token) ↦
                inl (o, given, user, token ∙ current_user-token a.session o given)
            | inr failed ↦ inr failed
          ],
        ))
    | inr unsigned ↦ rw unsigned (inl (refl, refl, refl))
  ]

  -- After the profile was asked for, nobody is known without a token.
  pub refresh_user-IsSettled : (a : App S) → IsSettled (refresh_user build serve a)
  refresh_user-IsSettled a = elim (refresh_user-IsRead a) [
    | inl (_, nobody, _) ↦ inl nobody
    | inr (signed, inl (_, _, _, token)) ↦ inr (rw token signed)
    | inr (_, inr (_, _, nobody, _)) ↦ inl nobody
  ]

  -- A sign-in that asks for a token leaves the one at hand alone.
  login-token :
      (email password : Str) (w : Session S)
      → (Calls.login build serve email password w).1.token ≡ w.token
  unfolding Calls.login
  login-token email password w =
      elim (request-token build serve as_token (js "/auth/jwt/login") (login_options email password)
        w) [ inl (same, _) ↦ same | inr (_, _, signed_in, _) ↦ absurd (false≢true signed_in) ]

  logged_in_cases :
      (p : Result Str × Session S) (a : App S)
      → p.1.token ≡ a.session.token
      → ((token : Str) × (p.0 ≡ ok token)
          × ((logged_in build serve p a).0 ≡ ok tt)
          × IsRead (record p.1 { token = some token }) (logged_in build serve p a).1)
        ⊎ ((e : Failure) × (p.0 ≡ fail e)
            × ((logged_in build serve p a).0 ≡ fail e)
            × ((logged_in build serve p a).1.user ≡ a.user)
            × ((logged_in build serve p a).1.session.token ≡ a.session.token))
  unfolding logged_in set_token
  logged_in_cases (ok token, w) a h =
      inl (token, refl, refl, refresh_user-IsRead (set_token token (record a { session = w })))
  logged_in_cases (fail e, w) a h = inr (e, refl, refl, refl, h)

  -- A sign-in by password either is given a token, and then it succeeds with the profile asked for;
  -- or it throws what the API's call threw, and then the user and the token are as they were.
  pub login_with_password_cases :
      (email password : Str) (a : App S)
      → ((token : Str) × ((Calls.login build serve email password a.session).0 ≡ ok token)
          × ((login_with_password build serve email password a).0 ≡ ok tt)
          × IsRead
              (record (Calls.login build serve email password a.session).1 { token = some token })
              (login_with_password build serve email password a).1)
        ⊎ ((e : Failure) × ((Calls.login build serve email password a.session).0 ≡ fail e)
            × ((login_with_password build serve email password a).0 ≡ fail e)
            × ((login_with_password build serve email password a).1.user ≡ a.user)
            × ((login_with_password build serve email password a).1.session.token
                ≡ a.session.token))
  unfolding login_with_password
  login_with_password_cases email password a =
      logged_in_cases (Calls.login build serve email password a.session) a
        (login-token email password a.session)

  -- Signing out clears the user and the token whatever the server answers, and what the server's
  -- call throws is thrown on.
  pub logout_clears :
      (a : App S)
      → ((logout build serve a).1.user ≡ none)
        × ((logout build serve a).1.session.token ≡ none)
        × ((logout build serve a).0 ≡ (Calls.logout build serve a.session).0)
  unfolding logout sign_out
  logout_clears a = (refl, refl, refl)

  delete-token :
      (w : Session S)
      → (((Calls.delete_account build serve w).1.token ≡ w.token)
          × ((Calls.delete_account build serve w).1.assigned ≡ w.assigned))
        ⊎ (((Calls.delete_account build serve w).1.token ≡ none)
            × ((Calls.delete_account build serve w).1.assigned ≡ js "/login?expired=1" ∷ w.assigned)
            × (true ≡ true)
            × IsExpired w.lang (Calls.delete_account build serve w).0)
  unfolding Calls.delete_account
  delete-token w = request-token build serve as_void (js "/users/me") (with_method delete) w

  deleted_cases :
      (p : Result (Unit {0}) × Session S) (a : App S)
      → (((deleted p a).0 ≡ ok tt)
          × ((deleted p a).1.user ≡ none)
          × ((deleted p a).1.session.token ≡ none))
        ⊎ ((e : Failure) × ((deleted p a).0 ≡ fail e)
            × (p.0 ≡ fail e)
            × ((deleted p a).1.user ≡ a.user)
            × ((deleted p a).1.session ≡ p.1))
  unfolding deleted sign_out
  deleted_cases (ok _, w) a = inl (refl, refl, refl)
  deleted_cases (fail e, w) a = inr (e, refl, refl, refl, refl)

  -- Deleting the account either succeeds and signs out, or throws and keeps the user; then the token
  -- and the address stay, or the server answered that the session had expired, the token is gone
  -- and the login page is opened.
  pub delete_account_cases :
      (a : App S)
      → (((delete_account build serve a).0 ≡ ok tt)
          × ((delete_account build serve a).1.user ≡ none)
          × ((delete_account build serve a).1.session.token ≡ none))
        ⊎ ((e : Failure) × ((delete_account build serve a).0 ≡ fail e)
            × ((Calls.delete_account build serve a.session).0 ≡ fail e)
            × ((delete_account build serve a).1.user ≡ a.user)
            × ((((delete_account build serve a).1.session.token ≡ a.session.token)
                  × ((delete_account build serve a).1.session.assigned ≡ a.session.assigned))
                ⊎ (((delete_account build serve a).1.session.token ≡ none)
                    × ((delete_account build serve a).1.session.assigned
                        ≡ js "/login?expired=1" ∷ a.session.assigned)
                    × IsExpired a.session.lang (delete_account build serve a).0)))
  unfolding delete_account
  delete_account_cases a = elim (deleted_cases (Calls.delete_account build serve a.session) a) [
    | inl done ↦ inl done
    | inr (e, thrown, answered, user, session) ↦ inr (
      e,
      thrown,
      answered,
      user,
      elim (delete-token a.session) [
        | inl (same, there) ↦ inl (rw session same, rw session there)
        | inr (gone, assigned, _, (code, expired)) ↦
            inr (rw session gone, rw session assigned, (code, thrown ∙ (sym answered ∙ expired)))
      ],
    )
  ]
