-- ===== src/Site/English/Access.antt =====
-- marketing/src/i18n.ts, `en`: pilot, security, faq, form, fields, footer.
use tidybridge.Base.{[], ◌∷◌}
use tidybridge.Site.Copy.{Copy, text, object, array}

abbrev pub en_pilot : Copy
en_pilot = object (
    ("title", text "How to start, step by step")
    ∷ (
      "steps",
      array (
          object (
            ("when", text "1 · Access")
            ∷ (
              "text",
              text "You accept the data processing agreement (DPA) and we send you an invitation.",
            )
            ∷ [])
          ∷ object (
              ("when", text "2 · Upload")
              ∷ (
                "text",
                text "One client's invoices, as PDFs or photos. We help you with the first upload.",
              )
              ∷ [])
          ∷ object (
              ("when", text "3 · Review")
              ∷ (
                "text",
                text
                    "Only what's flagged, then export to CSV or Excel for your accounting software.",
              )
              ∷ [])
          ∷ []),
    )
    ∷ ("dpa", text "It's free: tidybridge is a personal, open-source project.")
    ∷ [])

abbrev pub en_security : Copy
en_security = object (
    ("title", text "Security and privacy")
    ∷ (
      "cards",
      array (
          object (
            ("title", text "Servers in the EU")
            ∷ (
              "text",
              text
                  "The server and its database are in Amsterdam; extraction runs on Mistral AI (France).",
            )
            ∷ [])
          ∷ object (
              ("title", text "GDPR and DPA")
              ∷ ("text", text "We sign a DPA before you upload any invoice.")
              ∷ [])
          ∷ object (
              ("title", text "No model training")
              ∷ ("text", text "We don't train models on your invoices, and neither does Mistral.")
              ∷ [])
          ∷ object (
              ("title", text "Deletion on request")
              ∷ ("text", text "You can delete any data at any time.")
              ∷ [])
          ∷ []),
    )
    ∷ ("more", text "Details in the privacy policy and the DPA")
    ∷ ("code", text "Open source (MIT) · see it on GitHub")
    ∷ [])

abbrev pub en_faq : Copy
en_faq = object (
    ("title", text "Frequently asked questions")
    ∷ (
      "items",
      array (
          object (
            ("q", text "Which formats do you accept?")
            ∷ (
              "a",
              text
                  "PDF and photos (JPG, PNG, WebP), plus CSV and Excel. iPhone HEIC photos, not yet.",
            )
            ∷ [])
          ∷ object (
              ("q", text "Which accounting software does it work with?")
              ∷ (
                "a",
                text
                    "Today we export to CSV and Excel, which any accounting software can import. Direct integrations will come later.",
              )
              ∷ [])
          ∷ object (
              ("q", text "What about GDPR?")
              ∷ (
                "a",
                text
                    "You're the controller of your clients' data and we're the processor. We sign a DPA before starting, and the servers are in the EU.",
              )
              ∷ [])
          ∷ object (
              ("q", text "How much does it cost?")
              ∷ (
                "a",
                text
                    "It's free: tidybridge is a personal, open-source project. If that ever changes or it shuts down, we give you 30 days' notice and you can export your data.",
              )
              ∷ [])
          ∷ object (
              ("q", text "What if it gets something wrong?")
              ∷ (
                "a",
                text
                    "It flags what it isn't sure about for you to review, and nothing goes out to other systems without your approval.",
              )
              ∷ [])
          ∷ []),
    )
    ∷ [])

abbrev pub en_form : Copy
en_form = object (
    ("title", text "Request free access")
    ∷ ("intro", text "Tell us who you are and we'll write back within 2 working days.")
    ∷ ("name", text "Name")
    ∷ ("firm", text "Firm")
    ∷ ("email", text "Email")
    ∷ ("phone", text "Phone (optional)")
    ∷ ("volume", text "How many invoices a month? (optional)")
    ∷ (
      "volumeOptions",
      object (
          ("<100", text "Fewer than 100")
          ∷ ("100-500", text "100–500")
          ∷ ("500+", text "More than 500")
          ∷ []),
    )
    ∷ ("message", text "Message (optional)")
    ∷ ("privacyBefore", text "I've read the ")
    ∷ ("privacyLink", text "privacy policy")
    ∷ ("privacyAfter", text ".")
    ∷ ("submit", text "Send request")
    ∷ ("sending", text "Sending…")
    ∷ ("success", text "Thank you! We'll write back within 2 working days.")
    ∷ ("error", text "We couldn't send your request. Try again or write to")
    ∷ ("orEmail", text "Prefer email? Write to")
    ∷ [])

abbrev pub en_fields : Copy
en_fields = object (
    ("supplier_name", text "Supplier")
    ∷ ("supplier_tax_id", text "Supplier tax ID")
    ∷ ("invoice_number", text "Invoice no.")
    ∷ ("invoice_date", text "Date")
    ∷ ("net_amount", text "Net")
    ∷ ("vat_amount", text "VAT")
    ∷ ("withholding_amount", text "Withholding")
    ∷ ("total_amount", text "Total")
    ∷ ("validTaxId", text "check digit OK")
    ∷ [])

abbrev pub en_footer : Copy
en_footer = object (
    ("product", text "Product")
    ∷ ("legal", text "Legal")
    ∷ ("developers", text "For developers")
    ∷ ("terms", text "Terms of service")
    ∷ ("privacy", text "Privacy policy")
    ∷ ("dpa", text "Data processing agreement")
    ∷ ("contact", text "Contact")
    ∷ ("github", text "tidybridge on GitHub")
    ∷ ("tidycsv", text "tidycsv on GitHub")
    ∷ ("openSource", text "Open source")
    ∷ [])
