-- ===== src/Tests/Site.antt =====
-- The landing site at concrete inputs.
use tidybridge.Base.{
  suc, js, str_eq, length, ◌≡◌, ◌≤◌, ◌↔◌, refl, some, none, [], ◌∷◌, ◌++◌, if◌then◌else◌, arith,
}
use tidybridge.I18n.{spanish, english}
use tidybridge.Site.Copy.{key, index, text_at, child, field_of, item_of}
use tidybridge.Site.Addresses.{copy, other_lang_href}
use tidybridge.Site.Addresses.Laws.{other_lang_href-other_lang_href, text_at-copy}
use tidybridge.Site.PilotForm.{FormFields, on_submit, on_answer}
use tidybridge.Site.PilotForm.Laws.{
  Page, opened, clicked, click, answer, start, later, IsGuarded, Reach-IsGuarded,
}
use tidybridge.Tests.Samples.{api}

other_lang_href-other_lang_href_example :
    (other_lang_href english (other_lang_href spanish (js "/" ++ js "privacy"))
      ≡ js "/" ++ js "privacy")
    × (other_lang_href spanish (other_lang_href english (js "/en/" ++ js "privacy"))
        ≡ js "/en/" ++ js "privacy")
other_lang_href-other_lang_href_example = other_lang_href-other_lang_href (js "privacy")

text_at-copy_example :
    (text_at
        (key (js "how") ∷ key (js "steps") ∷ index 2 ∷ key (js "title") ∷ [])
        (some (copy spanish))
      ≡ none)
    ↔ (text_at
          (key (js "how") ∷ key (js "steps") ∷ index 2 ∷ key (js "title") ∷ [])
          (some (copy english))
        ≡ none)
text_at-copy_example =
    text_at-copy (key (js "how") ∷ key (js "steps") ∷ index 2 ∷ key (js "title") ∷ [])

third_step :
    text_at
      (key (js "how") ∷ key (js "steps") ∷ index 2 ∷ key (js "title") ∷ [])
      (some (copy english))
    ≡ some "You review and export"
unfolding text_at child field_of item_of copy js str_eq
third_step = refl

abbrev filled : FormFields
filled name = if str_eq name (js "name") then some (js "Ana") else none

-- Two clicks in a row, and the answer to the one request.
abbrev twice : Page
twice = clicked api spanish filled (clicked api spanish filled opened)

one_sent : length twice.requests ≡ 1
unfolding clicked on_submit
one_sent = refl

one_answered : suc twice.answered ≤ length twice.requests
unfolding clicked on_submit
one_answered = omega arith

Reach-IsGuarded_example :
    IsGuarded
      (record twice { form = on_answer (some 202) twice.form; answered = suc twice.answered })
Reach-IsGuarded_example =
    Reach-IsGuarded api spanish _
      (later (later (later start (click filled)) (click filled)) (answer (some 202) one_answered))
