-- ===== src/Account/Passwords/Laws.antt =====
-- AcceptInvitePage.tsx and ResetPasswordPage.tsx: what a submitted form leads to.
use tidybridge.Base.{
  Str, js, str_eq, true, false, ◌≡◌, ◌≢◌, refl, str_eq_iff, ◌⊎◌, inl, inr, Option, none, some, [],
  ◌∷◌, arith, Bool-cases,
}
use tidybridge.I18n.{Lang, t}
use tidybridge.Client.Errors.{Result, ok, fail, Failure}
use tidybridge.Client.Request.{Build, HttpRequest, Response, Session, post, Value}
use tidybridge.Client.Request.Laws.{unsigned_request-token}
use tidybridge.Client.Calls.{accept_invite, reset_password, as_email, as_void, send_json}
use tidybridge.Account.{Visit}
use tidybridge.Account.Login.{login_form, notices}
use tidybridge.Account.Passwords.{
  PasswordForm, password_begin, submit_begun, submit, invite_answer, reset_answer,
  accept_invite_submit, reset_password_submit,
}

-- Nothing was sent: the session is as it was, and the form says that the passwords differ.
abbrev pub IsMismatch :
    {S : Type 0} → PasswordForm → Session S → (Option Visit × PasswordForm) × Session S → Type 0
IsMismatch f w ((visit, f'), w') =
    (visit ≡ none)
    × (w' ≡ w)
    × (f' ≡ record f { error = some (t w.lang (js "passwordsDontMatch") []) })

-- The password was sent and refused: the form stays, ready again, with an error and what was typed.
abbrev pub IsRefused :
    {S : Type 0} → PasswordForm → Session S → (Option Visit × PasswordForm) × Session S → Type 0
IsRefused f w ((visit, f'), w') =
    (visit ≡ none)
    × (f'.error ≢ none)
    × (f'.submitting ≡ false)
    × (f'.password ≡ f.password)
    × (f'.confirm_password ≡ f.confirm_password)
    × (w'.token ≡ w.token)

-- The login page that is gone to has this address in its form and this one notice above it.
abbrev pub OpensLogin : Lang → Str → Str → Option Visit → Type 0
OpensLogin lang email text visit =
    (v : Visit) × (visit ≡ some v)
    × (v.path ≡ js "/login")
    × ((login_form v.state).email ≡ email)
    × (notices lang v.state false false ≡ text ∷ [])

abbrev sending : PasswordForm → PasswordForm
sending f = record f { error = none; submitting = true }

module _ {S T : Type 0} (call : Str → Session S → Result T × Session S)
    (answered : Lang → Result T → PasswordForm → Option Visit × PasswordForm)
    (Good : Lang → T → Option Visit → Type 0)
    (kept : (password : Str) (w : Session S) → (call password w).1.token ≡ w.token)
    (good : (lang : Lang) (f : PasswordForm) (a : T) → Good lang a (answered lang (ok a) f).0)
    (bad : (f : PasswordForm) (e : Failure) (w w' : Session S)
      → w'.token ≡ w.token
      → IsRefused f w (answered w.lang (fail e) (sending f), w')) where
  answered_cases :
      (f : PasswordForm) (w : Session S) (p : Result T × Session S)
      → p.1.token ≡ w.token
      → ((a : T) × (p.0 ≡ ok a) × Good w.lang a (answered w.lang p.0 (sending f)).0)
        ⊎ IsRefused f w (answered w.lang p.0 (sending f), p.1)
  answered_cases f w (ok a, w') same = inl (a, refl, good w.lang (sending f) a)
  answered_cases f w (fail e, w') same = inr (bad f e w w' same)

  -- What both pages have in common.
  submit_cases :
      (f : PasswordForm) (w : Session S)
      → ((f.password ≢ f.confirm_password) × IsMismatch f w (submit call answered f w))
        ⊎ ((f.password ≡ f.confirm_password)
            × (((a : T) × ((call f.password w).0 ≡ ok a)
                  × Good w.lang a (submit call answered f w).0.0)
                ⊎ IsRefused f w (submit call answered f w)))
  unfolding submit submit_begun password_begin
  submit_cases f w = elim (Bool-cases (str_eq f.password f.confirm_password)) [
    | inl same ↦ rw same (
        inr (
          (str_eq_iff f.password f.confirm_password).0 same,
          answered_cases f w (call f.password w) (kept f.password w),
        ))
    | inr differ ↦
        rw differ (
          inl ((λ e. ground (arith, str_eq_iff f.password f.confirm_password)), (refl, refl, refl)))
  ]

module _ {S : Type 0} (build : Build) (serve : S → HttpRequest → Option Response × S) where
  invite_good :
      (lang : Lang) (f : PasswordForm) (email : Str)
      → OpensLogin lang email
          (t lang (js "inviteAcceptedSignIn") [])
          (invite_answer lang (ok email) f).0
  unfolding invite_answer login_form notices
  invite_good lang f email = (_, refl, refl, refl, refl)

  invite_bad :
      (f : PasswordForm) (e : Failure) (w w' : Session S)
      → w'.token ≡ w.token
      → IsRefused f w (invite_answer w.lang (fail e) (sending f), w')
  unfolding invite_answer
  invite_bad f e w w' same = (refl, (λ h. cc), refl, refl, refl, same)

  reset_good :
      (lang : Lang) (f : PasswordForm) (done : Unit {0})
      → OpensLogin lang [] (t lang (js "passwordResetDone") []) (reset_answer lang (ok done) f).0
  unfolding reset_answer login_form notices
  reset_good lang f done = (_, refl, refl, refl, refl)

  reset_bad :
      (f : PasswordForm) (e : Failure) (w w' : Session S)
      → w'.token ≡ w.token
      → IsRefused f w (reset_answer w.lang (fail e) (sending f), w')
  unfolding reset_answer
  reset_bad f e w w' same = (refl, (λ h. cc), refl, refl, refl, same)

  invite-token :
      (token password : Str) (w : Session S)
      → (accept_invite build serve token password w).1.token ≡ w.token
  unfolding accept_invite
  invite-token token password w =
      unsigned_request-token build serve as_email (js "/auth/accept-invite")
        (send_json post false
          ((js "token", Value.str token) ∷ (js "password", Value.str password) ∷ []))
        w refl

  reset-token :
      (token password : Str) (w : Session S)
      → (reset_password build serve token password w).1.token ≡ w.token
  unfolding reset_password
  reset-token token password w =
      unsigned_request-token build serve as_void (js "/auth/reset-password")
        (send_json post false
          ((js "token", Value.str token) ∷ (js "password", Value.str password) ∷ []))
        w refl

  -- Accepting an invitation: if the two passwords differ, nothing is sent and the form says so; else
  -- the password is sent, and either the API gives an address and the login page opens with it in
  -- its form and the notice that the invitation was accepted, or the form stays with an error,
  -- what was typed, and the token that was held.
  pub accept_invite_submit_cases :
      (token : Str) (f : PasswordForm) (w : Session S)
      → ((f.password ≢ f.confirm_password)
          × IsMismatch f w (accept_invite_submit build serve token f w))
        ⊎ ((f.password ≡ f.confirm_password)
            × (((email : Str) × ((accept_invite build serve token f.password w).0 ≡ ok email)
                  × OpensLogin w.lang email
                      (t w.lang (js "inviteAcceptedSignIn") [])
                      (accept_invite_submit build serve token f w).0.0)
                ⊎ IsRefused f w (accept_invite_submit build serve token f w)))
  unfolding accept_invite_submit
  accept_invite_submit_cases token f w =
      submit_cases (accept_invite build serve token) invite_answer
        (λ lang email visit. OpensLogin lang email (t lang (js "inviteAcceptedSignIn") []) visit)
        (invite-token token) invite_good invite_bad f w

  -- A new password from the link of a mail: the same, with an empty address and the notice that the
  -- password was reset.
  pub reset_password_submit_cases :
      (token : Str) (f : PasswordForm) (w : Session S)
      → ((f.password ≢ f.confirm_password)
          × IsMismatch f w (reset_password_submit build serve token f w))
        ⊎ ((f.password ≡ f.confirm_password)
            × (((done : Unit {0}) × ((reset_password build serve token f.password w).0 ≡ ok done)
                  × OpensLogin w.lang []
                      (t w.lang (js "passwordResetDone") [])
                      (reset_password_submit build serve token f w).0.0)
                ⊎ IsRefused f w (reset_password_submit build serve token f w)))
  unfolding reset_password_submit
  reset_password_submit_cases token f w =
      submit_cases (reset_password build serve token) reset_answer
        (λ lang done visit. OpensLogin lang [] (t lang (js "passwordResetDone") []) visit)
        (reset-token token) reset_good reset_bad f w
