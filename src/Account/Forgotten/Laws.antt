-- ===== src/Account/Forgotten/Laws.antt =====
-- ForgotPasswordPage.tsx: what the page gives away.
use tidybridge.Base.{
  Bool, true, false, ◌≡◌, refl, ◌∙◌, sym, ◌⊎◌, inl, inr, Option, none, some, Bool-cases,
}
use tidybridge.Client.Errors.{Result, ok, fail}
use tidybridge.Client.Request.{Build, HttpRequest, Response, Session}
use tidybridge.Client.Calls.{forgot_password}
use tidybridge.Account.Forgotten.{
  ForgotForm, sent, has_status, forgot_begin, forgot_failed, forgot_answer, forgot_submit,
}

-- The answer is one of the two that the page tells apart from a mail that was sent.
abbrev pub IsTold : Result Bool → Type 0
IsTold (ok oauth) = oauth ≡ true
IsTold (fail e) = has_status 429 e ≡ true

abbrev shown_sent : ForgotForm → ForgotForm
shown_sent f = record f { error = none; submitting = false; outcome = some sent }

answer_cases :
    {S : Type 0} (f : ForgotForm) (w : Session S) (r : Result Bool)
    → IsTold r ⊎ (forgot_answer w.lang r (forgot_begin f) ≡ shown_sent f)
unfolding forgot_answer forgot_begin forgot_failed
answer_cases f w (ok true) = inl refl
answer_cases f w (ok false) = inr refl
answer_cases f w (fail e) = elim (Bool-cases (has_status 429 e)) [
  | inl limited ↦ inl limited
  | inr other ↦ inr (rw other)
]

module _ {S S' : Type 0} (build : Build) (serve : S → HttpRequest → Option Response × S)
    (serve' : S' → HttpRequest → Option Response × S') where
  -- Two servers, whatever they know of an address, leave the page in the same state for it, unless
  -- one of them says that the account signs in with GitHub only or that there were too many
  -- attempts: a mail that was sent, an unknown address and any failure look alike.
  pub forgot_submit_alike :
      (f : ForgotForm) (w : Session S) (w' : Session S')
      → (forgot_submit build serve f w).0 ≡ (forgot_submit build serve' f w').0
        ⊎ (IsTold (forgot_password build serve f.email w).0
            ⊎ IsTold (forgot_password build serve' f.email w').0)
  unfolding forgot_submit
  forgot_submit_alike f w w' = elim (answer_cases f w (forgot_password build serve f.email w).0) [
    | inl told ↦ inr (inl told)
    | inr first ↦ elim (answer_cases f w' (forgot_password build serve' f.email w').0) [
      | inl told ↦ inr (inr told)
      | inr second ↦ inl (first ∙ sym second)
    ]
  ]
