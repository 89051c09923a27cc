-- ===== src/Site/PilotForm/Laws.antt =====
-- PilotForm.tsx: one request at a time, however fast one clicks.
use tidybridge.Base.{
  ℕ, suc, ◌+◌, ◌≤◌, ◌≡◌, refl, ◌↔◌, inl, inr, true, Option, none, some, List, [], ◌∷◌, arith,
  Bool-cases, length, if◌then◌else◌, ◌==◌,
}
use tidybridge.I18n.{Lang}
use tidybridge.Client.Request.{Build}
use tidybridge.Site.PilotForm.{
  sending, Form, fresh_form, FormFields, PilotRequest, on_submit, on_answer,
}

-- The page and the network: the requests that were sent, latest first, and how many were answered.
pub record Page : Type 0 where
  pub form : Form
  pub requests : List PilotRequest
  pub answered : ℕ

abbrev pub opened : Page
opened = record { form = fresh_form; requests = []; answered = 0 }

abbrev also : Option PilotRequest → List PilotRequest → List PilotRequest
also none rs = rs
also (some r) rs = r ∷ rs

unfoldable pub clicked : Build → Lang → FormFields → Page → Page
clicked build lang values p =
    let (r, f) = on_submit build lang values p.form in
    record p { form = f; requests = also r p.requests }

-- A click can come at any time; an answer, or a failure, only to a request that waits for one.
pub data Step (build : Build) (lang : Lang) : Page → Page → Type 0 where
  click : {p : Page} (values : FormFields) → Step build lang p (clicked build lang values p)
  answer :
      {p : Page} (status : Option ℕ)
      → suc p.answered ≤ length p.requests
      → Step build lang p (record p { form = on_answer status p.form; answered = suc p.answered })

pub data Reach (build : Build) (lang : Lang) : Page → Type 0 where
  start : Reach build lang opened
  later : {p q : Page} → Reach build lang p → Step build lang p q → Reach build lang q

-- Of the requests that were sent, all but one at most were answered, and that one is on its way
-- exactly while the page is sending and holds further clicks back.
abbrev pub IsGuarded : Page → Type 0
IsGuarded p =
    (length p.requests ≡ p.answered + (if p.form.in_flight then 1 else 0))
    × ((p.form.status ≡ sending) ↔ (p.form.in_flight ≡ true))

module _ (build : Build) (lang : Lang) where
  clicked-IsGuarded :
      (values : FormFields) (p : Page) → IsGuarded p → IsGuarded (clicked build lang values p)
  unfolding clicked on_submit
  clicked-IsGuarded values p (counted, shown) = elim (Bool-cases p.form.in_flight) [
    | inl busy ↦ rw busy (rw busy at counted, rw busy at shown)
    | inr free ↦ rw free (ground (arith, rw free at counted), (λ e. refl, λ e. refl))
  ]

  answered-IsGuarded :
      (status : Option ℕ) (p : Page)
      → suc p.answered ≤ length p.requests
      → IsGuarded p
      → IsGuarded (record p { form = on_answer status p.form; answered = suc p.answered })
  unfolding on_answer
  answered-IsGuarded none p waits (counted, shown) =
      (ground (arith, counted, waits), (λ e. cc, λ e. cc))
  answered-IsGuarded (some status) p waits (counted, shown) = (
    ground (arith, counted, waits),
    elim (Bool-cases (status == 202)) [
      | inl accepted ↦ rw accepted (λ e. cc, λ e. cc)
      | inr refused ↦ rw refused (λ e. cc, λ e. cc)
    ],
  )

  -- However often and fast the form is submitted, and whatever comes back: at most one request is
  -- unanswered at a time, and one is exactly while the page is sending and holds clicks back.
  pub Reach-IsGuarded : (p : Page) → Reach build lang p → IsGuarded p
  Reach-IsGuarded p start = (refl, (λ e. cc, λ e. cc))
  Reach-IsGuarded p (later r (click values)) = clicked-IsGuarded values _ (Reach-IsGuarded _ r)
  Reach-IsGuarded p (later r (answer status waits)) =
      answered-IsGuarded status _ waits (Reach-IsGuarded _ r)
