-- ===== src/Models.antt =====
-- The rows of app/models and the settings of app/config.py that the services read. The audit columns
-- `created_at` and `updated_at` are left out, except where they are read. An instant is a
-- number of microseconds in UTC, counted from the least `datetime`.
pub mod Settings
use procore_intake_bridge.Base.{ℕ, ◌*◌, String, Bool, Option, List}
use procore_intake_bridge.Json.{Json}

abbrev pub Instant : Type 0
Instant = ℕ

-- `timedelta(minutes=n)` and `timedelta(days=n)`.
abbrev pub minutes : ℕ → ℕ
minutes n = n * 60_000_000

abbrev pub days : ℕ → ℕ
days n = n * 86_400_000_000

pub data ResourceType : Type 0 where
  rfi submittal unknown : ResourceType

pub data ProcessingStatus : Type 0 where
  queued processing processed skipped failed : ProcessingStatus

pub data SyncMode : Type 0 where
  mock live : SyncMode

pub record DmsaConnection : Type 0 where
  pub id : ℕ
  pub procore_company_id : String
  pub permitted_project_ids : List String
  pub enabled_tools : List String
  pub client_id_ref : Option String
  pub secret_name : String

pub record SyncProfile : Type 0 where
  pub id : ℕ
  pub connection_id : ℕ
  pub procore_project_id : String
  pub enabled : Bool
  pub sync_rfis : Bool
  pub sync_submittals : Bool
  pub polling_interval_minutes : ℕ
  pub mode : SyncMode
  pub last_successful_sync_at : Option Instant
  pub last_attempted_sync_at : Option Instant
  pub next_run_at : Option Instant
  pub last_watermark_at : Option Instant
  pub consecutive_failure_count : ℕ
  pub last_error_code : Option String
  pub last_error_message : Option String
  pub locked_at : Option Instant
  pub lock_owner : Option String

pub record WebhookEvent : Type 0 where
  pub id : ℕ
  pub connection_id : Option ℕ
  pub sync_profile_id : Option ℕ
  pub event_id : String
  pub event_type : String
  pub resource_type : ResourceType
  pub action : String
  pub procore_company_id : Option String
  pub procore_project_id : Option String
  pub procore_item_id : Option String
  pub payload_json : Json
  pub signature_status : String
  pub processing_status : ProcessingStatus
  pub received_at : Instant
  pub available_at : Instant
  pub processed_at : Option Instant
  pub failure_count : ℕ
  pub last_error_code : Option String
  pub last_error_message : Option String
  pub locked_at : Option Instant
  pub lock_owner : Option String

pub record IntakeRecord : Type 0 where
  pub id : ℕ
  pub source_type : String
  pub procore_project_id : String
  pub procore_item_id : String
  pub number : String
  pub title : String
  pub status : String
  pub due_date : Option Instant
  pub received_at : Option Instant
  pub source_updated_at : Option Instant
  pub raw_payload_json : Json
  pub attachment_count : ℕ
  pub sync_run_id : ℕ
  pub updated_at : Instant

pub record IntakeAttachment : Type 0 where
  pub intake_record_id : ℕ
  pub procore_attachment_id : String
  pub filename : String
  pub content_type : Option String
  pub source_url_redacted : Option String

pub record AttachmentObject : Type 0 where
  pub id : ℕ
  pub intake_record_id : Option ℕ
  pub sync_run_id : Option ℕ
  pub connection_id : Option ℕ
  pub sync_profile_id : Option ℕ
  pub source_type : String
  pub procore_project_id : Option String
  pub procore_item_id : Option String
  pub procore_attachment_id : Option String
  pub original_filename : String
  pub safe_filename : String
  pub content_type : Option String
  pub size_bytes : Option ℕ
  pub source_url_present : Bool
  pub source_url_hash : Option String
  pub storage_backend : String
  pub storage_key : String
  pub storage_path : String
  pub checksum_sha256 : Option String
  pub download_status : String
  pub failure_code : Option String
  pub failure_message : Option String

pub record SyncRun : Type 0 where
  pub id : ℕ
  pub connection_id : ℕ
  pub completed : Bool
  pub record_count : ℕ
  pub attachment_count : ℕ

-- A status or a reason code is the text of the column: old rows may hold other texts than the enums'.
pub record IntakeReviewState : Type 0 where
  pub id : ℕ
  pub intake_record_id : ℕ
  pub status : String
  pub current_reason_code : Option String
  pub current_reason_summary_sanitized : Option String
  pub actor_hash : Option String
  pub actor_label_masked : Option String
  pub event_count : ℕ

pub record IntakeReviewLifecycleEvent : Type 0 where
  pub id : ℕ
  pub intake_record_id : ℕ
  pub from_status : String
  pub to_status : String
  pub reason_code : String
  pub reason_summary_sanitized : String
  pub actor_hash : Option String
  pub actor_label_masked : Option String
  pub request_id_hash : Option String
  pub source : String
  pub created_at : Instant
