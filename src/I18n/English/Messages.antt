-- ===== src/I18n/English/Messages.antt =====
-- frontend/src/lib/i18n.ts, `en`: the settings, the mapping review and the texts for server messages.
use tidybridge.Base.{String, List, [], ◌∷◌}

unfoldable pub en_messages : List (String × String)
en_messages =
    ("settingsIntro", "Update the profile details attached to your account.")
    ∷ ("saved", "Saved.")
    ∷ ("changePassword", "Change password")
    ∷ ("changing", "Changing…")
    ∷ ("leaveBlank", "Leave blank if you don't want to change it.")
    ∷ ("currentPassword", "Current password")
    ∷ (
      "passwordChangedSignIn",
      "Password changed. You've been signed out on every device - sign in with your new password.",
    )
    ∷ ("dangerZone", "Danger zone")
    ∷ (
      "deleteAccountWarning",
      "Permanently deletes your account and every record, upload and delivery it owns. This cannot be undone.",
    )
    ∷ ("deleteAccount", "Delete account")
    ∷ ("deleteAccountTitle", "Delete your account?")
    ∷ ("deleteAccountFailed", "Couldn't delete your account. Try again.")
    ∷ ("language", "Language")
    ∷ ("languageIntro", "The app's language in this browser.")
    ∷ ("mappingTitle", "Review column mapping")
    ∷ ("mappingIntro", "Applies to this upload and future uploads with this exact set of columns.")
    ∷ ("colRawColumn", "Raw column")
    ∷ ("colFieldName", "Field name")
    ∷ ("colType", "Type")
    ∷ ("colRequired", "Required")
    ∷ ("colDedupKey", "Dedup key")
    ∷ ("example", "e.g. {values}")
    ∷ ("fieldNameRule", "Lowercase letters, numbers, underscores only - must start with a letter")
    ∷ ("fixFieldNames", "Fix the field name errors above before saving.")
    ∷ ("save", "Save")
    ∷ (
      "mappingNothingYet",
      "Nothing to review yet - upload this shape once more to pick up its mapping.",
    )
    ∷ ("mappingLoadFailed", "Couldn't load this mapping.")
    ∷ ("mappingSaveFailed", "Couldn't save this mapping - try again.")
    ∷ ("unmapped", "unmapped")
    ∷ ("changeRemapped", "\"{raw}\" now maps to \"{to}\" (was \"{from}\")")
    ∷ ("changeDropped", "\"{raw}\" is no longer mapped to any field (dropped \"{from}\")")
    ∷ ("changeType", "\"{field}\" type changed from {from} to {to}")
    ∷ ("changeRequired", "\"{field}\" is now required - a blank value will be flagged")
    ∷ ("changeNotRequired", "\"{field}\" is no longer required")
    ∷ ("changeDedupOn", "Duplicate detection now keys on: {fields}")
    ∷ ("changeDedupOff", "Duplicate detection is now off (no dedup key fields)")
    ∷ ("type_string", "Text")
    ∷ ("type_email", "Email")
    ∷ ("type_date", "Date")
    ∷ ("type_currency", "Amount")
    ∷ ("type_integer", "Integer")
    ∷ ("type_phone", "Phone")
    ∷ ("srv_extractorUnsure", "Extractor unsure - check against the document")
    ∷ ("srv_formula", "Starts like a spreadsheet formula - check against the document")
    ∷ (
      "srv_checkDigit",
      "Check digit doesn't match - not a valid Spanish NIF/CIF, check against the document",
    )
    ∷ ("srv_sameTaxId", "Same tax ID as the supplier - check who issued the invoice")
    ∷ ("srv_totals", "Net + VAT - withholding = {a}, but total is {b}")
    ∷ ("srv_requiredColumn", "Required column missing from the file")
    ∷ ("srv_requiredEmpty", "Required field is empty")
    ∷ ("srv_badEmail", "Invalid email format")
    ∷ ("srv_badDate", "Unrecognised date")
    ∷ ("srv_badAmount", "Unrecognised amount")
    ∷ ("srv_badInteger", "Unrecognised whole number")
    ∷ ("srv_shortPhone", "Phone number too short")
    ∷ (
      "srv_unreadable",
      "Couldn't read \"{file}\" as a CSV or Excel file - make sure it's not empty or corrupted, and that its extension matches its format.",
    )
    ∷ ("srv_tooBig", "File exceeds the {mb} MB upload limit")
    ∷ (
      "srv_tooManyRows",
      "Too many rows: {rows} (the limit is {max} per upload). Split the file and upload the parts.",
    )
    ∷ ("srv_tooBigUncompressed", "'{file}' is too large once uncompressed (over {mb} MB).")
    ∷ ("srv_noInvoice", "No invoice found in \"{file}\"")
    ∷ ("srv_docUnreadable", "The document couldn't be read.")
    ∷ ("srv_declined", "The document was declined by the extraction model")
    ∷ ("srv_tooManyInvoices", "Too many invoices in one document - split it into smaller files")
    ∷ (
      "srv_unavailable",
      "Invoice extraction is temporarily unavailable - please try again in a minute.",
    )
    ∷ (
      "srv_extractionOff",
      "Invoice extraction isn't enabled on this server - upload a CSV or Excel file instead",
    )
    ∷ ("srv_flagged", "This record is flagged - fix or approve it first")
    ∷ ("srv_pwLength", "Password must be at least {n} characters long")
    ∷ ("srv_pwUpper", "Password must contain at least one uppercase letter")
    ∷ ("srv_pwLower", "Password must contain at least one lowercase letter")
    ∷ ("srv_pwDigit", "Password must contain at least one digit")
    ∷ ("srv_pwSpecial", "Password must contain at least one special character")
    ∷ ("srv_currentPasswordWrong", "Current password is incorrect")
    ∷ ("code_LOGIN_BAD_CREDENTIALS", "Wrong email or password.")
    ∷ (
      "code_LOGIN_USER_NOT_VERIFIED",
      "Activate your account with the invitation link we emailed you.",
    )
    ∷ ("code_REGISTER_USER_ALREADY_EXISTS", "An account with this email already exists.")
    ∷ (
      "code_RESET_PASSWORD_BAD_TOKEN",
      "This reset link is invalid or has expired. Request a new one below.",
    )
    ∷ ("code_UPDATE_USER_EMAIL_ALREADY_EXISTS", "An account with this email already exists.")
    ∷ (
      "code_OAUTH_USER_ALREADY_EXISTS",
      "An account with this email already exists. Sign in with your password.",
    )
    ∷ ("srv_recordNotFound", "This record no longer exists. It may have been deleted.")
    ∷ ("srv_runNotFound", "This upload no longer exists. It may have been deleted.")
    ∷ ("srv_predatesSchema", "This record is too old to edit: delete it and upload the file again.")
    ∷ (
      "srv_signupClosed",
      "Signup is by invitation only for now. If you're an accounting firm, request the pilot at tidybridge.dev.",
    )
    ∷ (
      "err_generic",
      "Something went wrong. Try again; if it keeps happening, email us at hello@tidybridge.dev.",
    )
    ∷ (
      "err_server",
      "Something went wrong on our side. Try again in a few minutes; if it keeps happening, email us at hello@tidybridge.dev.",
    )
    ∷ ("err_sessionExpired", "Your session has expired. Please sign in again.")
    ∷ ("err_tooMany", "Too many attempts. Wait a minute and try again.")
    ∷ ("err_invalidInput", "Check the form: some of the details aren't valid.")
    ∷ ("err_offline", "Can't reach the server. Check your internet connection and try again.")
    ∷ (
      "code_OAUTH_NOT_AVAILABLE_EMAIL",
      "Your GitHub account doesn't share an email. Sign up with email and password instead.",
    )
    ∷ []
