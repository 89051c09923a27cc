-- ===== src/Account/Runs/Sessions.antt =====
-- AuthContext.tsx and client.ts: what a request and a profile do to a state that is in a phase.
use tidybridge.Base.{
  true, Str, js, false, ◌≡◌, ◌≢◌, refl, ◌∙◌, ◌⊎◌, inl, inr, Option, none, some, ◌∷◌, truthy, arith,
  Bool-cases,
}
use tidybridge.Types.{CurrentUser}
use tidybridge.Client.Errors.{Result, ok, fail}
use tidybridge.Client.Request.{Build, HttpRequest, Response, Payload, Options, Session, request}
use tidybridge.Client.Request.Laws.{request-token, IsExpired}
use tidybridge.Client.Calls
use tidybridge.Client.Calls.{
  as_user, as_token, as_void, send_json, with_method, profile_body, login_options, ProfileUpdate,
}
use tidybridge.Auth.{App, set_token, refreshed, sign_out, refresh_user, logged_in, profile_updated}
use tidybridge.Auth.Laws.{refresh_user-IsSettled, IsSettled}
use tidybridge.Account.Runs.Phases.{
  Phase, nobody, member, leaving, Lapse, kept, lapsed, Renewal, only, member_renewed,
  leaving_renewed, Fresh, missing, found, HasPhase, IsIn, LeadsToLogin, nameless, nameless_lapsed,
  member_lost, leaving_lost, unnamed,
}

module _ {S : Type 0} where
  -- The session is as it was, or it has expired.
  abbrev pub Ends : {T : Type 0} → Session S → Result T × Session S → Type 0
  Ends w (r, w') =
      ((w'.token ≡ w.token) × (w'.assigned ≡ w.assigned))
      ⊎ ((w'.token ≡ none)
          × (w'.assigned ≡ js "/login?expired=1" ∷ w.assigned)
          × IsExpired w.lang r)

  same_phase :
      (p : Phase) (a : App S) (w : Session S)
      → HasPhase p a
      → w.token ≡ a.session.token
      → w.assigned ≡ a.session.assigned
      → HasPhase p (record a { session = w })
  same_phase nobody a w (user, out) token assigned = (user, rw token out)
  same_phase nameless a w (user, held) token assigned = (user, rw token held)
  same_phase (member u) a w (user, held) token assigned = (user, rw token held)
  same_phase (leaving u) a w (user, out, leads) token assigned =
      (user, rw token out, rw assigned leads)

  -- The session is checked, and a user is known without a token only on the way to the login page.
  abbrev pub IsKept : App S → Type 0
  IsKept a =
      (a.loading ≡ false)
      × ((a.user ≡ none) ⊎ (truthy a.session.token ≡ true) ⊎ LeadsToLogin a.session.assigned)

  pub phase-IsKept : (p : Phase) (a : App S) → IsIn p a → IsKept a
  phase-IsKept nobody a (loaded, (user, out)) = (loaded, inl user)
  phase-IsKept nameless a (loaded, (user, held)) = (loaded, inl user)
  phase-IsKept (member u) a (loaded, (user, held)) = (loaded, inr (inl held))
  phase-IsKept (leaving u) a (loaded, (user, out, leads)) = (loaded, inr (inr leads))

  expired_leads :
      (w w' : Session S)
      → w'.assigned ≡ js "/login?expired=1" ∷ w.assigned
      → LeadsToLogin w'.assigned
  expired_leads w w' h = (js "/login?expired=1", w.assigned, h, inl refl)

  lapses_expired :
      (p : Phase) (a : App S) (w : Session S)
      → IsIn p a
      → w.token ≡ none
      → w.assigned ≡ js "/login?expired=1" ∷ a.session.assigned
      → (q : Phase) × Lapse p q × IsIn q (record a { session = w })
  lapses_expired nobody a w (loaded, (user, out)) gone assigned =
      (nobody, kept, (loaded, (user, rw gone refl)))
  lapses_expired nameless a w (loaded, (user, held)) gone assigned =
      (nobody, nameless_lapsed, (loaded, (user, rw gone refl)))
  lapses_expired (member u) a w (loaded, (user, held)) gone assigned =
      (leaving u, lapsed, (loaded, (user, rw gone refl, expired_leads a.session w assigned)))
  lapses_expired (leaving u) a w (loaded, (user, out, _)) gone assigned =
      (leaving u, kept, (loaded, (user, rw gone refl, expired_leads a.session w assigned)))

  pub lapses :
      {T : Type 0} (p : Phase) (a : App S) (r : Result T × Session S)
      → IsIn p a
      → Ends a.session r
      → (q : Phase) × Lapse p q × IsIn q (record a { session = r.1 })
  lapses p a r (loaded, here) (inl (token, assigned)) =
      (p, kept, (loaded, same_phase p a r.1 here token assigned))
  lapses p a r here (inr (gone, assigned, _)) = lapses_expired p a r.1 here gone assigned

  pub settled_phase :
      (a : App S) (known : Option CurrentUser)
      → a.user ≡ known
      → a.loading ≡ false
      → IsSettled a
      → (q : Phase) × Fresh q × IsIn q a
  settled_phase a none user loaded settled = elim (Bool-cases (truthy a.session.token)) [
    | inl held ↦ (nameless, unnamed, (loaded, (user, held)))
    | inr gone ↦ (nobody, missing, (loaded, (user, gone)))
  ]
  settled_phase a (some u) user loaded settled = elim settled [
    | inl h ↦ (member u, found, (loaded, (user, cc)))
    | inr held ↦ (member u, found, (loaded, (user, held)))
  ]

module _ {S : Type 0} (build : Build) (serve : S → HttpRequest → Option Response × S) where
  pub request-Ends :
      {T : Type 0} (cast : Payload → Result T) (path : Str) (opts : Options) (w : Session S)
      → Ends w (request build serve cast path opts w)
  request-Ends cast path opts w = elim (request-token build serve cast path opts w) [
    | inl same ↦ inl same
    | inr (gone, assigned, _, expired) ↦ inr (gone, assigned, expired)
  ]

  pub login_same :
      (email password : Str) (w : Session S)
      → ((Calls.login build serve email password w).1.token ≡ w.token)
        × ((Calls.login build serve email password w).1.assigned ≡ w.assigned)
  unfolding Calls.login
  login_same email password w =
      elim (request-token build serve as_token (js "/auth/jwt/login") (login_options email password)
        w) [ inl same ↦ same | inr (_, _, signed_in, _) ↦ absurd (ground (arith, signed_in)) ]

  refreshed-loading :
      (p : Result (Option CurrentUser) × Session S) (a : App S)
      → (refreshed p a).loading ≡ a.loading
  unfolding refreshed sign_out
  refreshed-loading (ok o, w) a = refl
  refreshed-loading (fail e, w) a = refl

  refresh_user-loading : (a : App S) → (refresh_user build serve a).loading ≡ a.loading
  unfolding refresh_user
  refresh_user-loading a = elim (Bool-cases (truthy a.session.token)) [
    | inl held ↦ rw held (refreshed-loading (Calls.get_current_user build serve a.session) a)
    | inr gone ↦ rw gone refl
  ]

  pub refresh_phase :
      (a : App S) → a.loading ≡ false → (q : Phase) × Fresh q × IsIn q (refresh_user build serve a)
  refresh_phase a loaded =
      settled_phase (refresh_user build serve a) (refresh_user build serve a).user refl
        (refresh_user-loading a ∙ loaded) (refresh_user-IsSettled build serve a)

  pub logged_in_phase :
      (p : Phase) (a : App S) (r : Result Str × Session S)
      → IsIn p a
      → r.1.token ≡ a.session.token
      → r.1.assigned ≡ a.session.assigned
      → ((q : Phase) × Fresh q × IsIn q (logged_in build serve r a).1)
        ⊎ IsIn p (logged_in build serve r a).1
  unfolding logged_in set_token
  logged_in_phase p a (ok token, w) (loaded, here) same assigned =
      inl (refresh_phase (set_token token (record a { session = w })) loaded)
  logged_in_phase p a (fail e, w) (loaded, here) same assigned =
      inr (loaded, same_phase p a w here same assigned)

  renewed :
      (p : Phase) (a : App S) (o : Option CurrentUser) (w : Session S)
      → IsIn p a
      → a.user ≢ none
      → w.token ≡ a.session.token
      → w.assigned ≡ a.session.assigned
      → (q : Phase) × Renewal p q × IsIn q (record a { session = w; user = o })
  renewed nobody a o w (loaded, (user, out)) known token assigned = absurd (known user)
  renewed nameless a o w (loaded, (user, held)) known token assigned = absurd (known user)
  renewed (member u) a (some v) w (loaded, (user, held)) known token assigned =
      (member v, member_renewed, (loaded, (refl, rw token held)))
  renewed (member u) a none w (loaded, (user, held)) known token assigned =
      (nameless, member_lost, (loaded, (refl, rw token held)))
  renewed (leaving u) a none w (loaded, (user, out, _)) known token assigned =
      (nobody, leaving_lost, (loaded, (refl, rw token out)))
  renewed (leaving u) a (some v) w (loaded, (user, out, leads)) known token assigned =
      (leaving v, leaving_renewed, (loaded, (refl, rw token out, rw assigned leads)))

  pub renews :
      (p : Phase) (a : App S) (r : Result (Option CurrentUser) × Session S)
      → IsIn p a
      → a.user ≢ none
      → Ends a.session r
      → (q : Phase) × Renewal p q × IsIn q (profile_updated r a).1
  unfolding profile_updated
  renews p a (fail e, w) here known ends =
      let (q, lapse, there) = lapses p a (fail e, w) here ends in (q, only lapse, there)
  renews p a (ok o, w) here known (inl (token, assigned)) =
      renewed p a o w here known token assigned
  renews p a (ok o, w) here known (inr (_, _, (code, failed))) = cc
