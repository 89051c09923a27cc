-- ===== src/Account/Runs/Refines.antt =====
-- AuthContext.tsx and the pages around it do what the state machine of phases allows.
use tidybridge.Base.{
  js, true, ◌≡◌, ◌≢◌, refl, ◌⊎◌, inl, inr, Option, none, some, List, [], ◌∷◌, Bool-cases, str_eq,
}
use tidybridge.Types.{CurrentUser}
use tidybridge.I18n.{Lang}
use tidybridge.Client.Errors.{Result, ok, fail}
use tidybridge.Client.Request.{Build, HttpRequest, Response, Session, request, patch, delete}
use tidybridge.Client.Calls
use tidybridge.Client.Calls.{
  as_user, as_token, as_void, send_json, with_method, profile_body, login_options, ProfileUpdate,
}
use tidybridge.Auth.{
  App, init, mount, set_token, sign_out, login_with_token, logout, login_with_password,
  profile_updated, update_profile, deleted, delete_account,
}
use tidybridge.Auth.Laws.{refresh_user-IsSettled}
use tidybridge.Account.{RouterState}
use tidybridge.Account.Login.{LoginForm, login_submit}
use tidybridge.Account.Profile.{
  Settings, PasswordChange, profile_update, password_update, settings_submit, complete_submit,
  change_submit, change_answer, leave, delete_submit,
}
use tidybridge.Account.Runs.{
  Event, signs_in, comes_back, completes_profile, saves_profile, changes_password, deletes_account,
  signs_out, calls, reloads, after, run, if_known,
}
use tidybridge.Account.Runs.Phases.{
  Phase, nobody, member, leaving, kept, Renewal, only, Move, Moves, IsIn, nameless,
}
use tidybridge.Account.Runs.Sessions.{
  Ends, lapses, settled_phase, IsKept, phase-IsKept, request-Ends, login_same, refresh_phase,
  logged_in_phase, renews,
}

module _ {S : Type 0} (build : Build) (serve : S → HttpRequest → Option Response × S) where
  update_profile-Ends :
      (input : ProfileUpdate) (w : Session S) → Ends w (Calls.update_profile build serve input w)
  unfolding Calls.update_profile
  update_profile-Ends input w =
      request-Ends build serve as_user (js "/users/me") (send_json patch true (profile_body input))
        w

  delete_account-Ends : (w : Session S) → Ends w (Calls.delete_account build serve w)
  unfolding Calls.delete_account
  delete_account-Ends w = request-Ends build serve as_void (js "/users/me") (with_method delete) w

  known_phase :
      (p : Phase) (a : App S)
      → IsIn p a
      → a.user ≢ none
      → (u : CurrentUser) × ((p ≡ member u) ⊎ (p ≡ leaving u))
  known_phase nobody a (loaded, (user, out)) known = absurd (known user)
  known_phase nameless a (loaded, (user, held)) known = absurd (known user)
  known_phase (member u) a here known = (u, inl refl)
  known_phase (leaving u) a here known = (u, inr refl)

  changed :
      (p : Phase) (a : App S) (s : Settings) (lang : Lang) (c : PasswordChange)
      (r : Result (Option CurrentUser) × Session S)
      → IsIn p a
      → a.user ≢ none
      → Ends a.session r
      → (q : Phase) × Move (changes_password s) p q
        × IsIn q (change_answer lang (profile_updated r a) c).1
  unfolding profile_updated change_answer leave
  changed p a s lang c (fail e, w) here known ends =
      let (q, lapse, there) = lapses p a (fail e, w) here ends in
      (q, Move.change_refused lapse, there)
  changed p a s lang c (ok none, w) (loaded, here) known ends =
      (nobody, Move.change_lost ((known_phase p a (loaded, here) known).1), (loaded, (refl, refl)))
  changed p a s lang c (ok (some v), w) (loaded, here) known ends = (
    leaving v,
    Move.change ((known_phase p a (loaded, here) known).1),
    (loaded, (refl, refl, (js "/login?password_changed=1", w.assigned, refl, inr refl))),
  )

  change_submitted :
      (p : Phase) (a : App S) (u : CurrentUser) (s : Settings)
      → IsIn p a
      → a.user ≢ none
      → (q : Phase) × Move (changes_password s) p q × IsIn q (change_submit build serve u s a).1
  unfolding change_submit update_profile
  change_submitted p a u s here known =
      elim (Bool-cases (str_eq s.change.new_password s.change.confirm_password)) [
        | inl same ↦ rw same (
            changed p a s a.session.lang _
              (Calls.update_profile build serve (password_update u s) a.session) here known
              (update_profile-Ends (password_update u s) a.session))
        | inr differ ↦ rw differ (p, Move.change_refused kept, here)
      ]

  deletes :
      (p : Phase) (a : App S) (s : Settings) (r : Result (Unit {0}) × Session S)
      → IsIn p a
      → Ends a.session r
      → (q : Phase) × Move (deletes_account s) p q × IsIn q (deleted r a).1
  unfolding deleted sign_out
  deletes p a s (ok _, w) (loaded, here) ends = (nobody, Move.delete, (loaded, (refl, refl)))
  deletes p a s (fail e, w) here ends =
      let (q, lapse, there) = lapses p a (fail e, w) here ends in
      (q, Move.delete_refused lapse, there)

  when_known :
      (o : Option CurrentUser) (p : Phase) (a : App S) (next : CurrentUser → App S)
      (R : Phase → Type 0)
      → IsIn p a
      → R p
      → ((u : CurrentUser) → o ≡ some u → (q : Phase) × R q × IsIn q (next u))
      → (q : Phase) × R q × IsIn q (if_known o next a)
  when_known none p a next R here stays moves = (p, stays, here)
  when_known (some u) p a next R here stays moves = moves u refl

  profile_changes :
      (p : Phase) (a : App S) (input : ProfileUpdate) (R : Phase → Type 0)
      → IsIn p a
      → ((q : Phase) → Renewal p q → R q)
      → (q : Phase) × R q × IsIn q (if_known a.user (λ u. (update_profile build serve input a).1) a)
  unfolding update_profile
  profile_changes p a input R here moves =
      when_known a.user p a (λ u. (update_profile build serve input a).1) R here
        (moves p (only kept))
        (λ u user.
          let (q, renewal, there) =
            renews build serve p a (Calls.update_profile build serve input a.session) here (λ h. cc)
              (update_profile-Ends input a.session) in
          (q, moves q renewal, there))

  signed_in :
      (p : Phase) (a : App S) (state : RouterState) (f : LoginForm)
      → IsIn p a
      → (q : Phase) × Move (signs_in state f) p q × IsIn q (login_submit build serve state f a).1
  unfolding login_submit login_with_password
  signed_in p a state f here =
      let (token, assigned) = login_same build serve f.email f.password a.session in
      elim (logged_in_phase build serve p a (Calls.login build serve f.email f.password a.session)
        here token assigned) [
          | inl (q, fresh, there) ↦ (q, Move.sign_in fresh, there)
          | inr there ↦ (p, Move.sign_in_refused, there)
        ]

  -- One event moves the application as the state machine allows.
  after-Move :
      (e : Event) (p : Phase) (a : App S)
      → IsIn p a
      → (q : Phase) × Move e p q × IsIn q (after build serve e a)
  unfolding after login_with_token set_token complete_submit settings_submit delete_submit
      delete_account logout sign_out mount
  after-Move (signs_in state f) p a here = signed_in p a state f here
  after-Move (comes_back token) p a (loaded, here) =
      let (q, fresh, there) = refresh_phase build serve (set_token token a) loaded in
      (q, Move.come_back fresh, there)
  after-Move (completes_profile f) p a here =
      profile_changes p a (profile_update f) (Move (completes_profile f) p) here
        (λ q renewal. Move.complete renewal)
  after-Move (saves_profile s) p a here =
      profile_changes p a (profile_update s.profile) (Move (saves_profile s) p) here
        (λ q renewal. Move.save renewal)
  after-Move (changes_password s) p a here =
      when_known a.user p a (λ u. (change_submit build serve u s a).1) (Move (changes_password s) p)
        here (Move.change_refused kept) (λ u user. change_submitted p a u s here (λ h. cc))
  after-Move (deletes_account s) p a here =
      when_known a.user p a (λ u. (delete_submit build serve s a).1) (Move (deletes_account s) p)
        here (Move.delete_refused kept)
        (λ u user.
          deletes p a s (Calls.delete_account build serve a.session) here
            (delete_account-Ends a.session))
  after-Move signs_out p a (loaded, here) = (nobody, Move.signed_off, (loaded, (refl, refl)))
  after-Move (calls path opts) p a here =
      let (q, lapse, there) =
        lapses p a (request build serve as_void path opts a.session) here
          (request-Ends build serve as_void path opts a.session) in
      (q, Move.call lapse, there)
  after-Move reloads p a here =
      let b = mount build serve (init a.session) in
      let (q, fresh, there) =
        settled_phase b b.user refl refl (refresh_user-IsSettled build serve (init a.session)) in
      (q, Move.loaded_again fresh, there)

  -- Whatever the server answers and whatever happens, one event after another, from a state in which
  -- the session was checked: the application goes through the phases as the state machine allows, and
  -- ends in a state of the phase that it ends in.
  pub run-Moves :
      (es : List Event) (p : Phase) (a : App S)
      → IsIn p a
      → (q : Phase) × Moves es p q × IsIn q (run build serve es a)
  unfolding run
  run-Moves [] p a here = (p, Moves.no_move, here)
  run-Moves (e ∷ es) p a here =
      let (q, move, there) = after-Move e p a here in
      let (r, moves, end) = run-Moves es q (after build serve e a) there in
      (r, Moves.then_moves move moves, end)

  -- From a state in which the session was checked, after any events and whatever the server answers:
  -- the session is checked, and nobody is known, or a token is held, or the browser is on its way to
  -- the login page.
  pub run_phase :
      (es : List Event) (p : Phase) (a : App S) → IsIn p a → IsKept (run build serve es a)
  run_phase es p a here =
      let (q, moves, end) = run-Moves es p a here in phase-IsKept q (run build serve es a) end
