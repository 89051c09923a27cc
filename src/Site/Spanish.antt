-- ===== src/Site/Spanish.antt =====
-- marketing/src/i18n.ts: `es`.
mod Intro
mod Access
use tidybridge.Base.{[], ◌∷◌}
use tidybridge.Site.Copy.{Copy, object}
use Intro.{es_nav, es_hero, es_problem, es_how, es_samples, es_control}
use Access.{es_pilot, es_security, es_faq, es_form, es_fields, es_footer}

abbrev pub es_copy : Copy
es_copy = object (
    ("nav", es_nav)
    ∷ ("hero", es_hero)
    ∷ ("problem", es_problem)
    ∷ ("how", es_how)
    ∷ ("samples", es_samples)
    ∷ ("control", es_control)
    ∷ ("pilot", es_pilot)
    ∷ ("security", es_security)
    ∷ ("faq", es_faq)
    ∷ ("form", es_form)
    ∷ ("fields", es_fields)
    ∷ ("footer", es_footer)
    ∷ [])
