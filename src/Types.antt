-- ===== src/Types.antt =====
-- frontend/src/api/types.ts: what the API answers with. Numbers of rows, ids and attempts are
-- natural numbers; `null` and a missing key are `none`.
use tidybridge.Base.{ℕ, Str, Bool, Option, List}

pub record Issue : Type 0 where
  pub field : Str
  pub issue : Str

pub record ClientRecord : Type 0 where
  pub id : Str
  pub ingestion_run_id : Option Str
  pub source_file : Str
  pub fields : List (Str × Option Str)
  pub has_issues : Bool
  pub issues : Option (List Issue)
  pub approved_at : Option Str
  pub created_at : Str

pub record FieldResolution : Type 0 where
  pub raw_column : Str
  pub target_field : Option Str
  pub type : Option Str
  pub required : Option Bool

pub record ColumnMapping : Type 0 where
  pub field_resolutions : List FieldResolution
  pub dedup_key_fields : List Str

pub record ColumnMappingIn : Type 0 where
  pub field_resolutions : List FieldResolution
  pub dedup_key_fields : List Str
  pub apply_to_run_id : Option Str
  pub old_resolutions : Option (List FieldResolution)

pub record WebhookDelivery : Type 0 where
  pub id : ℕ
  pub record_id : Str
  pub url : Str
  pub status_code : Option ℕ
  pub success : Bool
  pub error : Option Str
  pub attempt_number : ℕ
  pub attempted_at : Str

pub record IngestResult : Type 0 where
  pub ingestion_run_id : Str
  pub rows_total : ℕ
  pub rows_clean : ℕ
  pub rows_flagged : ℕ
  pub rows_dropped_duplicates : ℕ
  pub rows_skipped_existing : ℕ
  pub mapping_is_default : Bool
  pub fingerprint : Str
  pub field_resolutions : List FieldResolution
  pub dedup_key_fields : List Str
  pub records : List ClientRecord
  pub sample_values : List (Str × List Str)

pub record IngestionRun : Type 0 where
  pub id : Str
  pub source_file : Str
  pub rows_total : ℕ
  pub rows_clean : ℕ
  pub rows_flagged : ℕ
  pub rows_dropped_duplicates : ℕ
  pub rows_skipped_existing : ℕ
  pub created_at : Str

-- IngestionRunsPage and RecordsPage have the same shape over their items.
pub record Page (A : Type 0) : Type 0 where
  pub items : List A
  pub total : ℕ
  pub limit : ℕ
  pub offset : ℕ

pub data JobStatus : Type 0 where
  pending awaiting_review done skipped_exists dead not_configured : JobStatus

pub record WebhookJobStatus : Type 0 where
  pub status : JobStatus
  pub attempt_number : Option ℕ
  pub available_at : Option Str

pub record ProvisioningAttempt : Type 0 where
  pub id : ℕ
  pub record_id : Str
  pub url : Str
  pub status_code : Option ℕ
  pub success : Bool
  pub error : Option Str
  pub attempt_number : ℕ
  pub attempted_at : Str

pub record ProvisioningJobStatus : Type 0 where
  pub status : JobStatus
  pub attempt_number : Option ℕ
  pub available_at : Option Str
  pub remote_id : Option Str

pub record CurrentUser : Type 0 where
  pub id : Str
  pub email : Str
  pub is_active : Bool
  pub is_superuser : Bool
  pub is_verified : Bool
  pub first_name : Option Str
  pub last_name : Option Str
  pub phone : Option Str
  pub has_password : Bool
