-- ===== src/I18n/English/Layout.antt =====
-- frontend/src/lib/i18n.ts, `en`: the layout, the shared words and the records page.
use tidybridge.Base.{String, List, [], ◌∷◌}

unfoldable pub en_layout : List (String × String)
en_layout =
    ("skipToContent", "Skip to content")
    ∷ ("uploadHistory", "Upload history")
    ∷ ("accountSettings", "Account settings")
    ∷ ("logOut", "Log out")
    ∷ ("privacyPolicy", "Privacy policy")
    ∷ ("terms", "Terms of service")
    ∷ ("dataProcessing", "Data processing")
    ∷ ("hello", "Hello, {name}")
    ∷ ("dismiss", "Dismiss")
    ∷ ("dismissError", "Dismiss error")
    ∷ ("loading", "Loading…")
    ∷ ("review", "Review")
    ∷ ("noRecordsYet", "No records yet. Upload a file to get started.")
    ∷ ("cancel", "Cancel")
    ∷ ("delete", "Delete")
    ∷ ("deleting", "Deleting…")
    ∷ ("export", "Export")
    ∷ ("statusClean", "Clean")
    ∷ ("statusNeedsReview", "Needs review")
    ∷ ("statusApproved", "Approved")
    ∷ ("records", "Records")
    ∷ ("exportCsv", "Export CSV")
    ∷ ("exporting", "Exporting…")
    ∷ ("uploadFileOrInvoice", "Upload file or invoice")
    ∷ ("uploadFile", "Upload file")
    ∷ ("uploading", "Uploading…")
    ∷ (
      "uploadingNotice",
      "Cleaning and importing your file - this can take a moment for larger uploads.",
    )
    ∷ ("mappingSaved", "Mapping saved.")
    ∷ ("noChanges", "No changes.")
    ∷ ("rowsProcessed_one", "{count} row processed")
    ∷ ("rowsProcessed_other", "{count} rows processed")
    ∷ ("clean_one", "clean")
    ∷ ("clean_other", "clean")
    ∷ ("needReview_one", "needs review")
    ∷ ("needReview_other", "need review")
    ∷ ("duplicatesSkipped_one", "duplicate skipped")
    ∷ ("duplicatesSkipped_other", "duplicates skipped")
    ∷ ("alreadyImported_one", "already imported")
    ∷ ("alreadyImported_other", "already imported")
    ∷ ("viewHistory", "View full history")
    ∷ ("statTotal", "Total records")
    ∷ ("statClean", "Clean")
    ∷ ("statNeedsReview", "Needs review")
    ∷ ("statApproved", "Approved")
    ∷ ("allUploads", "All uploads")
    ∷ ("filterByUpload", "Filter by upload")
    ∷ ("uploads", "Uploads")
    ∷ ("seeAllUploads", "See every upload in Upload history →")
    ∷ ("searchRecords", "Search…")
    ∷ ("searchRecordsLabel", "Search records")
    ∷ ("noMatches", "No records match this filter/search.")
    ∷ ("selectAll", "Select all")
    ∷ ("selectRecord", "Select record {id}")
    ∷ ("status", "Status")
    ∷ ("deleteCount", "Delete ({count})")
    ∷ ("deleteRecordTitle", "Delete this record?")
    ∷ ("deleteRecordsTitle_one", "Delete {count} record?")
    ∷ ("deleteRecordsTitle_other", "Delete {count} records?")
    ∷ ("deleteRecordMessage", "This permanently deletes the record. This cannot be undone.")
    ∷ (
      "deleteRecordMessageWebhooks",
      "This permanently deletes the record and its webhook delivery history. This cannot be undone.",
    )
    ∷ (
      "deleteRecordsMessage",
      "This permanently deletes the selected records. This cannot be undone.",
    )
    ∷ (
      "deleteRecordsMessageWebhooks",
      "This permanently deletes the selected records and their webhook delivery history. This cannot be undone.",
    )
    ∷ ("loadRecordsFailed", "Couldn't load records.")
    ∷ ("uploadFailed", "Upload failed.")
    ∷ ("exportFailed", "Export failed.")
    ∷ ("deleteRecordFailed", "Couldn't delete this record.")
    ∷ ("deleteRecordsFailed", "Couldn't delete the selected records.")
    ∷ ("newShape", "New format - check the fields we detected?")
    ∷ ("reviewMapping", "Review mapping")
    ∷ []
