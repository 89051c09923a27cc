-- ===== src/Site/English/Intro.antt =====
-- marketing/src/i18n.ts, `en`: nav, hero, problem, how, samples, control.
use tidybridge.Base.{[], ◌∷◌}
use tidybridge.Site.Copy.{Copy, text, object, array}

abbrev pub en_nav : Copy
en_nav = object (
    ("how", text "How it works")
    ∷ ("security", text "Security")
    ∷ ("faq", text "FAQ")
    ∷ ("signIn", text "Sign in")
    ∷ ("pilot", text "Free access")
    ∷ ("menu", text "Menu")
    ∷ ("skip", text "Skip to content")
    ∷ ("main", text "Main")
    ∷ ("switchTo", text "Español")
    ∷ ("switchShort", text "ES")
    ∷ (
      "theme",
      object (("light", text "Switch to light theme") ∷ ("dark", text "Switch to dark theme") ∷ []),
    )
    ∷ [])

abbrev pub en_hero : Copy
en_hero = object (
    ("title", text "Your clients' invoices, ready for your accounting software.")
    ∷ (
      "subtitle",
      text
          "Upload PDFs or photos. We extract tax IDs, net amount, VAT and withholding, and flag anything doubtful for you to review. No typing.",
    )
    ∷ ("cta", text "Request free access")
    ∷ ("secondary", text "See how it works")
    ∷ ("demoLabel", text "Example: an invoice and the data we extract from it")
    ∷ [])

abbrev pub en_problem : Copy
en_problem = object (
    ("title", text "Every quarter, hundreds of invoices typed in by hand.")
    ∷ (
      "points",
      array (
          text "Hours copying tax IDs, net amounts and VAT from PDFs and photos."
          ∷ text "One mistyped digit and the tax return doesn't add up."
          ∷ text "And it all arrives at once, at quarter end."
          ∷ []),
    )
    ∷ [])

abbrev pub en_how : Copy
en_how = object (
    ("title", text "How it works")
    ∷ (
      "screenAlt",
      text
          "tidybridge's records table with three extracted invoices, one of them flagged for review",
    )
    ∷ (
      "steps",
      array (
          object (
            ("title", text "You send the invoices")
            ∷ ("text", text "PDFs or phone photos, from one client or several.")
            ∷ [])
          ∷ object (
              ("title", text "We extract and check")
              ∷ (
                "text",
                text
                    "Supplier, customer, tax IDs, dates, net amount, VAT and withholding. We check the tax ID's check digit, that the totals add up, and that no invoice appears twice.",
              )
              ∷ [])
          ∷ object (
              ("title", text "You review and export")
              ∷ (
                "text",
                text
                    "Review only what's flagged and export to CSV or Excel to import into your accounting software.",
              )
              ∷ [])
          ∷ []),
    )
    ∷ [])

abbrev pub en_samples : Copy
en_samples = object (
    ("title", text "Try it with a sample invoice")
    ∷ ("intro", text "Made-up invoices, already processed. Pick one and see what we extract.")
    ∷ ("tabs", text "Sample invoices")
    ∷ ("extracted", text "Extracted data")
    ∷ ("noIssues", text "No issues")
    ∷ [])

abbrev pub en_control : Copy
en_control = object (
    ("title", text "The AI proposes. You approve.")
    ∷ (
      "intro",
      text
          "Anything unclear is flagged, with the reason. Flagged records aren't sent to any system until you fix or approve them.",
    )
    ∷ (
      "checks",
      array (
          text "A tax ID whose check digit doesn't match"
          ∷ text "Net + VAT − withholding that doesn't give the total"
          ∷ text "Hard-to-read data on the document"
          ∷ text "The same invoice uploaded twice"
          ∷ []),
    )
    ∷ ("alt", text "Reviewing an invoice with a flagged issue")
    ∷ [])
