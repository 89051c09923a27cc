-- ===== src/Site/English.antt =====
-- marketing/src/i18n.ts: `en`.
mod Intro
mod Access
use tidybridge.Base.{[], ◌∷◌}
use tidybridge.Site.Copy.{Copy, object}
use Intro.{en_nav, en_hero, en_problem, en_how, en_samples, en_control}
use Access.{en_pilot, en_security, en_faq, en_form, en_fields, en_footer}

abbrev pub en_copy : Copy
en_copy = object (
    ("nav", en_nav)
    ∷ ("hero", en_hero)
    ∷ ("problem", en_problem)
    ∷ ("how", en_how)
    ∷ ("samples", en_samples)
    ∷ ("control", en_control)
    ∷ ("pilot", en_pilot)
    ∷ ("security", en_security)
    ∷ ("faq", en_faq)
    ∷ ("form", en_form)
    ∷ ("fields", en_fields)
    ∷ ("footer", en_footer)
    ∷ [])
