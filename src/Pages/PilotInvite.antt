-- ===== src/Pages/PilotInvite.antt =====
-- frontend/src/pages/PilotInvitePage.tsx.
use tidybridge.Base.{
  Str, js, Bool, true, false, Option, none, some, [], ◌∷◌, if◌then◌else◌, ◌==◌, ◌≡◌, ◌≢◌, ◌⊎◌, inl,
  inr, refl, Bool-cases,
}
use tidybridge.I18n.{Lang, t, str}
use tidybridge.Client.Errors.{Result, ok, fail, Failure, api_error, other_error}
use tidybridge.Client.Request.{PilotRequestSummary}
use tidybridge.Account.{error_text, has_code}

pub record PilotInvite : Type 0 where
  pub pilot : Option PilotRequestSummary
  pub error : Option Str
  pub done : Option Str
  pub sending : Bool

unfoldable pub pilot_error : Lang → Failure → Str
pilot_error lang (api_error e) =
    if e.status == 403
    then t lang (js "adminOnly") []
    else if e.status == 404
    then t lang (js "pilotRequestGone") []
    else e.message
pilot_error lang other_error = t lang (js "somethingWentWrong") []

-- The effect, on the answer of getPilotRequest.
unfoldable pub pilot_loaded : Lang → Result PilotRequestSummary → PilotInvite → PilotInvite
pilot_loaded lang (ok pilot) s = record s { pilot = some pilot }
pilot_loaded lang (fail e) s = record s { error = some (pilot_error lang e) }

-- handleInvite up to the call.
unfoldable pub invite_begin : PilotInvite → PilotInvite
invite_begin s = record s { sending = true; error = none }

abbrev done_text : Lang → Str → PilotRequestSummary → Str
done_text lang key pilot = t lang key ((js "email", str pilot.email) ∷ [])

-- handleInvite on the answer; the button that calls it is there only with a pilot.
unfoldable pub invite_end :
    Lang → PilotRequestSummary → Result (Unit {0}) → PilotInvite → PilotInvite
invite_end lang pilot (ok _) s = record s {
  done = some (done_text lang (js "inviteSent") pilot);
  sending = false;
}
invite_end lang pilot (fail e) s =
    if has_code (js "INVITE_ALREADY_ACCEPTED") e
    then record s { done = some (done_text lang (js "inviteAlreadyActive") pilot); sending = false }
    else record s { error = some (error_text lang e); sending = false }

-- The button that invites: its text, and whether it is disabled.
unfoldable pub invite_button : Lang → PilotInvite → Option (Str × Bool)
invite_button lang s = elim s.done [
  | some text ↦ none
  | none ↦ elim s.pilot [
    | none ↦ none
    | some pilot ↦ some (t lang (if s.sending then js "sending" else js "sendInvite") [], s.sending)
  ]
]

-- The spinner is there while neither the request nor an error is.
unfoldable pub invite_waits : PilotInvite → Bool
invite_waits s = elim s.pilot [
  | some pilot ↦ false
  | none ↦ elim s.error [ none ↦ true | some e ↦ false ]
]

invite_done :
    (lang : Lang) (s : PilotInvite) (text : Str) → s.done ≡ some text → invite_button lang s ≡ none
unfolding invite_button
invite_done lang s text h = rw h refl

invite_ready :
    (lang : Lang) (s : PilotInvite) (pilot : PilotRequestSummary)
    → s.done ≡ none
    → s.pilot ≡ some pilot
    → s.sending ≡ false
    → invite_button lang s ≡ some (t lang (js "sendInvite") [], false)
unfolding invite_button
invite_ready lang s pilot h k free = rw (h, k, free) refl

-- An invitation of a pilot that is shown: if it was sent, or was accepted before, the button is gone
-- and no error is shown; any other failure is shown, and the button can be clicked again.
pub invite_end_cases :
    (lang : Lang) (pilot : PilotRequestSummary) (r : Result (Unit {0})) (s : PilotInvite)
    → s.pilot ≡ some pilot
    → s.done ≡ none
    → ((invite_button lang (invite_end lang pilot r (invite_begin s)) ≡ none)
        × ((invite_end lang pilot r (invite_begin s)).error ≡ none))
      ⊎ ((invite_button lang (invite_end lang pilot r (invite_begin s))
            ≡ some (t lang (js "sendInvite") [], false))
          × ((invite_end lang pilot r (invite_begin s)).error ≢ none))
unfolding invite_end invite_begin
invite_end_cases lang pilot (ok _) s shown todo =
    inl (invite_done lang _ (done_text lang (js "inviteSent") pilot) refl, refl)
invite_end_cases lang pilot (fail e) s shown todo =
    elim (Bool-cases (has_code (js "INVITE_ALREADY_ACCEPTED") e)) [
      | inl before ↦
          rw before
            (inl (invite_done lang _ (done_text lang (js "inviteAlreadyActive") pilot) refl, refl))
      | inr other ↦ rw other (inr (invite_ready lang _ pilot todo shown refl, (λ h. cc)))
    ]
