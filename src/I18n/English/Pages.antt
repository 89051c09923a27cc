-- ===== src/I18n/English/Pages.antt =====
-- frontend/src/lib/i18n.ts, `en`: the history, detail, field-label and sign-in texts.
use tidybridge.Base.{String, List, [], ◌∷◌}

unfoldable pub en_pages : List (String × String)
en_pages =
    ("uploadHistoryIntro", "Every file you've uploaded and what happened to each row.")
    ∷ ("noUploadsYet", "No uploads yet.")
    ∷ ("uploadAFile", "Upload a file")
    ∷ ("toStart", "to start.")
    ∷ ("colFile", "File")
    ∷ ("colUploaded", "Uploaded")
    ∷ ("colTotalRows", "Total rows")
    ∷ ("colClean", "Clean")
    ∷ ("colNeedReview", "Need review")
    ∷ ("colDuplicates", "Duplicates")
    ∷ ("colAlreadyImported", "Already imported")
    ∷ ("viewRecords", "View records")
    ∷ ("loadUploadsFailed", "Couldn't load upload history.")
    ∷ ("exportUploadFailed", "Couldn't export this upload's records.")
    ∷ ("backToRecords", "← Back to records")
    ∷ ("unnamedRecord", "Unnamed record")
    ∷ ("edit", "Edit")
    ∷ ("saveChanges", "Save changes")
    ∷ ("saving", "Saving…")
    ∷ ("sourceFile", "Source file")
    ∷ ("imported", "Imported")
    ∷ ("issues", "Issues")
    ∷ ("heldForReview", "Not sent anywhere until you fix these or approve the record as is.")
    ∷ ("approve", "Approve")
    ∷ ("approving", "Approving…")
    ∷ ("approvedOn", "Approved on {date}")
    ∷ ("recordNotFound", "Record not found.")
    ∷ ("loadRecordFailed", "Couldn't load this record.")
    ∷ ("saveFailed", "Couldn't save these changes.")
    ∷ ("approveFailed", "Couldn't approve this record.")
    ∷ ("webhookDeliveries", "Webhook deliveries")
    ∷ ("resendWebhook", "Resend webhook")
    ∷ ("resending", "Resending…")
    ∷ ("resendFailed", "Couldn't resend the webhook.")
    ∷ ("noWebhookYet", "No webhook was configured, or none has been attempted for this record.")
    ∷ ("copyWebhookUrl", "Copy webhook URL")
    ∷ ("colAttempt", "Attempt")
    ∷ ("colAttempted", "Attempted")
    ∷ ("colStatus", "Status")
    ∷ ("colResult", "Result")
    ∷ ("delivered", "Delivered")
    ∷ ("failed", "Failed")
    ∷ ("provisioning", "Provisioning")
    ∷ ("retryProvisioning", "Retry provisioning")
    ∷ ("retrying", "Retrying…")
    ∷ ("retryProvisioningFailed", "Couldn't retry provisioning.")
    ∷ ("provisionedAs", "Provisioned as {id} on the target system.")
    ∷ (
      "noProvisioningYet",
      "No provisioning target was configured, or none has been attempted for this record.",
    )
    ∷ ("provisioned", "Provisioned")
    ∷ ("alreadyExisted", "Already existed")
    ∷ ("retryingAttempt", "Retrying (attempt {n})")
    ∷ ("deliveryPending", "Delivery pending")
    ∷ ("provisioningPending", "Provisioning pending")
    ∷ ("awaitingReview", "Awaiting review")
    ∷ ("deliveryFailedPermanently", "Delivery failed permanently")
    ∷ ("provisioningFailedPermanently", "Provisioning failed permanently")
    ∷ ("field_supplier_name", "Supplier")
    ∷ ("field_supplier_tax_id", "Supplier tax ID")
    ∷ ("field_customer_name", "Customer")
    ∷ ("field_customer_tax_id", "Customer tax ID")
    ∷ ("field_invoice_number", "Invoice no.")
    ∷ ("field_invoice_date", "Date")
    ∷ ("field_currency", "Currency")
    ∷ ("field_net_amount", "Net")
    ∷ ("field_vat_amount", "VAT")
    ∷ ("field_withholding_amount", "Withholding")
    ∷ ("field_total_amount", "Total")
    ∷ ("field_full_name", "Name")
    ∷ ("field_email", "Email")
    ∷ ("field_signup_date", "Signup date")
    ∷ ("field_amount", "Amount")
    ∷ ("field_phone", "Phone")
    ∷ ("somethingWentWrong", "Something went wrong. Try again.")
    ∷ ("or", "or")
    ∷ ("signIn", "Sign in")
    ∷ ("signingIn", "Signing in…")
    ∷ ("signInIntro", "Access your records.")
    ∷ ("passwordResetDone", "Password reset. Sign in with your new password.")
    ∷ ("email", "Email")
    ∷ ("password", "Password")
    ∷ ("forgotPassword", "Forgot password?")
    ∷ ("continueWithGitHub", "Continue with GitHub")
    ∷ ("noAccount", "No account?")
    ∷ ("firstName", "First name")
    ∷ ("lastName", "Last name")
    ∷ ("agreeTo", "I agree to the")
    ∷ ("and", "and")
    ∷ ("agreeOwnData", ", including that any client data I upload is my own to share.")
    ∷ ("resetTitle", "Reset your password")
    ∷ (
      "resetIntro",
      "Enter your email and, if it's registered, we'll send a link to reset your password.",
    )
    ∷ (
      "resetSent",
      "If an account exists for {email}, a reset link is on its way. It expires in 1 hour.",
    )
    ∷ ("oauthOnly", "{email} signs in with GitHub only - there's no password to reset.")
    ∷ (
      "addPasswordLater",
      "You can add a password to this account from Account settings once you're signed in.",
    )
    ∷ ("sendResetLink", "Send reset link")
    ∷ ("sending", "Sending…")
    ∷ ("backToSignIn", "Back to sign in")
    ∷ ("tooManyAttempts", "Too many attempts. Wait a minute and try again.")
    ∷ ("newPasswordTitle", "Choose a new password")
    ∷ ("linkOnce", "This link only works once and expires an hour after it was requested.")
    ∷ ("linkMissingToken", "This link is missing its reset token. Request a new one below.")
    ∷ ("requestNewLink", "Request a new link")
    ∷ ("newPassword", "New password")
    ∷ ("confirmNewPassword", "Confirm new password")
    ∷ ("resetPassword", "Reset password")
    ∷ ("resetting", "Resetting…")
    ∷ ("passwordsDontMatch", "Passwords don't match.")
    ∷ ("resetLinkInvalid", "This reset link is invalid or has expired. Request a new one below.")
    ∷ ("acceptInviteTitle", "Activate your account")
    ∷ (
      "acceptInviteIntro",
      "Choose the password you'll sign in to tidybridge with. The link expires 7 days after it was sent.",
    )
    ∷ ("acceptInvite", "Activate account")
    ∷ (
      "inviteLinkInvalid",
      "This invitation link is invalid or has expired. Email us at hello@tidybridge.dev and we'll send a new one.",
    )
    ∷ (
      "inviteAlreadyAccepted", "This invitation has already been used. Sign in with your password.",
    )
    ∷ ("inviteAcceptedSignIn", "Account activated. You can sign in now.")
    ∷ ("requestPilot", "Request the pilot")
    ∷ ("invitePilotTitle", "Invite to tidybridge")
    ∷ ("pilotFirm", "Firm")
    ∷ ("pilotName", "Name")
    ∷ ("sendInvite", "Send invitation")
    ∷ (
      "inviteSent",
      "Invitation sent to {email}. The link expires in 7 days; come back here to send a new one if needed.",
    )
    ∷ ("inviteAlreadyActive", "{email} has already activated their account and can sign in.")
    ∷ ("adminOnly", "You don't have permission to see this page.")
    ∷ (
      "pilotRequestGone",
      "This request no longer exists (it may have been deleted by the retention period).",
    )
    ∷ ("oneMoreStep", "One more step")
    ∷ (
      "githubNoName",
      "{email} signed in with GitHub, which doesn't share a name or phone number - fill those in to continue.",
    )
    ∷ ("continue", "Continue")
    ∷ ("githubNoToken", "GitHub sign-in didn't return a token. Try again.")
    ∷ ("signInFailed", "Couldn't complete sign-in. Try again.")
    ∷ ("signingYouIn", "Signing you in…")
    ∷ ("showPassword", "Show password")
    ∷ ("hidePassword", "Hide password")
    ∷ ("ruleMet", " - met")
    ∷ ("ruleNotMet", " - not met yet")
    ∷ ("ruleLength", "At least 8 characters")
    ∷ ("ruleUpper", "One uppercase letter")
    ∷ ("ruleLower", "One lowercase letter")
    ∷ ("ruleDigit", "One digit")
    ∷ ("ruleSpecial", "One special character")
    ∷ ("phone", "Phone")
    ∷ ("optional", "(optional)")
    ∷ ("countryCode", "Country code")
    ∷ ("lightTheme", "Switch to light theme")
    ∷ ("darkTheme", "Switch to dark theme")
    ∷ ("copy", "Copy")
    ∷ ("copied", "Copied")
    ∷ []
