-- ===== src/Account/Profile/Laws.antt =====
-- SettingsPage.tsx and CompleteProfilePage.tsx: what their forms send and lead to.
use tidybridge.Client.Request.Laws.{IsExpired}
use tidybridge.Base.{
  Str, js, str_eq, str_eq_iff, true, false, ◌≡◌, ◌≢◌, refl, ◌∙◌, ap, ◌⊎◌, inl, inr, Option, none,
  some, [], ◌∷◌, arith, Bool-cases, lookup, truthy, is_empty, sym, Bool,
}
use tidybridge.I18n.{t}
use tidybridge.Types.{CurrentUser}
use tidybridge.Client.Errors.{Result, ok, fail, Failure, message_or}
use tidybridge.Client.Request.{Build, HttpRequest, Response, Session, Value}
use tidybridge.Client.Calls
use tidybridge.Client.Calls.{ProfileUpdate, profile_body}
use tidybridge.Auth.{App, update_profile, profile_updated}
use tidybridge.Auth.Laws.{delete_account_cases}
use tidybridge.Auth.Guard.Laws.{protected_route-eq-content_iff}
use tidybridge.Auth.Guard.{protected_route, content}
use tidybridge.Account.{error_text}
use tidybridge.Account.Profile.{
  ProfileForm, Settings, profile_update, profile_begin, profile_answer, password_update, can_change,
  change_answer, leave, password_refused, complete_submit, change_submit, account_deleted,
  delete_submit,
}

typed : (s : Str) → is_empty s ≡ false → truthy (some s) ≡ true
typed [] h = cc
typed (c ∷ s) h = refl

shows_content :
    {S : Type 0} (a : App S) (u : CurrentUser) (pathname : Str)
    → a.loading ≡ false
    → a.user ≡ some u
    → truthy u.first_name ≡ true
    → protected_route a pathname ≡ content
shows_content a u pathname loaded somebody named =
    (protected_route-eq-content_iff a pathname).1 (loaded, (u, somebody, inl named))

abbrev has_name : Option CurrentUser → Bool
has_name none = false
has_name (some u) = truthy u.first_name

shown_if_named :
    {S : Type 0} (a : App S) (o : Option CurrentUser) (pathname : Str)
    → a.loading ≡ false
    → a.user ≡ o
    → (has_name o ≡ false) ⊎ (protected_route a pathname ≡ content)
shown_if_named a none pathname loaded known = inl refl
shown_if_named a (some u) pathname loaded known = elim (Bool-cases (truthy u.first_name)) [
  | inl named ↦ inr (shows_content a u pathname loaded known named)
  | inr nameless ↦ inl nameless
]

-- While the password form's button is enabled, what it sends has the new password and the current
-- one as typed, and as names what the profile form has at that moment, saved or not.
pub profile_body-password_update :
    (user : CurrentUser) (s : Settings)
    → can_change user s.change ≡ true
    → (lookup (js "password") (profile_body (password_update user s))
        ≡ some (Value.str s.change.new_password))
      × (lookup (js "current_password") (profile_body (password_update user s))
          ≡ some (Value.str s.change.current_password))
      × (lookup (js "first_name") (profile_body (password_update user s))
          ≡ some (Value.str s.profile.first_name))
      × (lookup (js "last_name") (profile_body (password_update user s))
          ≡ some (Value.str s.profile.last_name))
unfolding profile_body password_update can_change lookup str_eq js
profile_body-password_update user s enabled =
    let given : truthy (some s.change.new_password) ≡ true =
      typed s.change.new_password (ground arith) in
    rw given (refl, refl, refl, refl)

module _ {S : Type 0} (build : Build) (serve : S → HttpRequest → Option Response × S) where
  updated_cases :
      (p : Result (Option CurrentUser) × Session S) (a : App S)
      → ((o : Option CurrentUser) × (p.0 ≡ ok o)
          × (profile_updated p a ≡ (ok tt, record a { session = p.1; user = o })))
        ⊎ ((e : Failure) × (p.0 ≡ fail e)
            × (profile_updated p a ≡ (fail e, record a { session = p.1 })))
  unfolding profile_updated
  updated_cases (ok o, w) a = inl (o, refl, refl)
  updated_cases (fail e, w) a = inr (e, refl, refl)

  update_profile_cases :
      (input : ProfileUpdate) (a : App S)
      → ((o : Option CurrentUser) × ((Calls.update_profile build serve input a.session).0 ≡ ok o)
          × (update_profile build serve input a ≡ (
            ok tt,
            record a { session = (Calls.update_profile build serve input a.session).1; user = o },
          )))
        ⊎ ((e : Failure) × ((Calls.update_profile build serve input a.session).0 ≡ fail e)
            × (update_profile build serve input a ≡ (
              fail e,
              record a { session = (Calls.update_profile build serve input a.session).1 },
            )))
  unfolding update_profile
  update_profile_cases input a = updated_cases (Calls.update_profile build serve input a.session) a

  -- A submitted change of the password: if the two new ones differ, nothing is sent, nothing of the
  -- session changes, and the form says so. Else it is sent, and if the API takes it, the token is
  -- dropped and the login page is opened; if not, the form is ready again with the error, what was
  -- typed, and the user as before.
  pub change_submit_cases :
      (user : CurrentUser) (s : Settings) (a : App S)
      → ((s.change.new_password ≢ s.change.confirm_password)
          × (change_submit build serve user s a ≡ (
            record s.change {
              password_error = some (t a.session.lang (js "passwordsDontMatch") []);
            },
            a,
          )))
        ⊎ ((s.change.new_password ≡ s.change.confirm_password)
            × ((((change_submit build serve user s a).1.session.token ≡ none)
                  × ((change_submit build serve user s a).1.session.assigned
                      ≡ js "/login?password_changed=1"
                        ∷ (Calls.update_profile build serve
                            (password_update user s)
                            a.session).1.assigned)
                  × ((o : Option CurrentUser) × ((Calls.update_profile build serve
                          (password_update user s)
                          a.session).0
                        ≡ ok o)))
                ⊎ ((e : Failure) × ((Calls.update_profile build serve
                        (password_update user s)
                        a.session).0
                      ≡ fail e)
                    × ((change_submit build serve user s a).0 ≡ record s.change {
                      password_error = some (error_text a.session.lang e);
                      changing_password = false;
                    })
                    × ((change_submit build serve user s a).1.user ≡ a.user))))
  unfolding change_submit change_answer leave password_refused
  change_submit_cases user s a =
      elim (Bool-cases (str_eq s.change.new_password s.change.confirm_password)) [
        | inl same ↦ rw same (
            inr (
              (str_eq_iff s.change.new_password s.change.confirm_password).0 same,
              elim (update_profile_cases (password_update user s) a) [
                | inl (o, taken, done) ↦ rw done (inl (refl, refl, (o, taken)))
                | inr (e, refused, done) ↦ rw done (inr (e, refused, refl, refl))
              ],
            ))
        | inr differ ↦ rw differ (
            inl (
              (λ e. ground (arith, str_eq_iff s.change.new_password s.change.confirm_password)),
              refl,
            ))
      ]

  -- Completing the profile, once the session was checked: if the API takes it, the home page is gone
  -- to, and every protected page shows its content then, if the answer is a user with a first name;
  -- if it refuses, the form stays, ready again, with an error and what was typed, and the user is as
  -- before.
  pub complete_submit_cases :
      (f : ProfileForm) (a : App S) (pathname : Str)
      → a.loading ≡ false
      → ((o : Option CurrentUser) × ((Calls.update_profile build serve
              (profile_update f)
              a.session).0
            ≡ ok o)
          × ((complete_submit build serve f a).0.0 ≡ some (js "/"))
          × ((has_name o ≡ false)
              ⊎ (protected_route (complete_submit build serve f a).1 pathname ≡ content)))
        ⊎ ((e : Failure) × ((Calls.update_profile build serve (profile_update f) a.session).0
              ≡ fail e)
            × ((complete_submit build serve f a).0.0 ≡ none)
            × ((complete_submit build serve f a).0.1
                ≡ record f { error = some (error_text a.session.lang e); submitting = false })
            × ((complete_submit build serve f a).1.user ≡ a.user))
  unfolding complete_submit profile_answer profile_begin
  complete_submit_cases f a pathname loaded = elim (update_profile_cases (profile_update f) a) [
    | inl (o, taken, done) ↦ inl (
      o,
      taken,
      rw done refl,
      shown_if_named (complete_submit build serve f a).1 o pathname
          (ap (λ r. r.1.loading) done ∙ loaded) (ap (λ r. r.1.user) done),
    )
    | inr (e, refused, done) ↦ rw done (inr (e, refused, refl, refl, refl))
  ]

  -- Deleting the account from the settings closes the dialog. Either the login page is gone to and
  -- nobody is signed in; or the API's call failed, the form navigates nowhere, its button is enabled
  -- again, it shows the failure, and the user is as before. Then the session is as it was, or it had
  -- expired: the token is gone, and the browser was sent to the login page.
  pub delete_submit_cases :
      (s : Settings) (a : App S)
      → ((delete_submit build serve s a).0.1.confirming_delete_account ≡ false)
        × ((((delete_submit build serve s a).0.0 ≡ some (js "/login"))
              × ((delete_submit build serve s a).1.user ≡ none)
              × ((delete_submit build serve s a).1.session.token ≡ none))
            ⊎ ((e : Failure) × ((Calls.delete_account build serve a.session).0 ≡ fail e)
                × ((delete_submit build serve s a).0.0 ≡ none)
                × ((delete_submit build serve s a).0.1.deleting_account ≡ false)
                × ((delete_submit build serve s a).0.1.delete_account_error
                    ≡ some (message_or e (t a.session.lang (js "deleteAccountFailed") [])))
                × ((delete_submit build serve s a).1.user ≡ a.user)
                × ((((delete_submit build serve s a).1.session.token ≡ a.session.token)
                      × ((delete_submit build serve s a).1.session.assigned ≡ a.session.assigned))
                    ⊎ (((delete_submit build serve s a).1.session.token ≡ none)
                        × ((delete_submit build serve s a).1.session.assigned
                            ≡ js "/login?expired=1" ∷ a.session.assigned)
                        × IsExpired a.session.lang
                            (Calls.delete_account build serve a.session).0))))
  unfolding delete_submit account_deleted
  delete_submit_cases s a = elim (delete_account_cases build serve a) [
    | inl (done, out, gone) ↦ rw done (refl, inl (refl, out, gone))
    | inr (e, thrown, answered, user, session) ↦ rw thrown (
      refl,
      inr (
        e,
        answered,
        refl,
        refl,
        refl,
        user,
        elim session [
          | inl same ↦ inl same
          | inr (gone, sent, (code, expired)) ↦
              inr (gone, sent, (code, answered ∙ (sym thrown ∙ expired)))
        ],
      ),
    )
  ]
