-- ===== src/Models/Settings.antt =====
-- The settings of app/config.py that the modelled services read, with their names there.
use procore_intake_bridge.Base.{ℕ, String, Bool, true, false}

pub record Settings : Type 0 where
  pub sync_lock_timeout_minutes : ℕ
  pub worker_id : String
  pub max_sync_lookback_days : ℕ
  pub procore_live_mode_enabled : Bool
  pub event_lock_timeout_minutes : ℕ
  pub event_max_attempts : ℕ
  pub event_worker_id : String
  pub webhooks_enabled : Bool
  pub require_webhook_signature : Bool
  pub webhook_signature_header : String
  pub webhook_secret_name : String
  pub webhook_event_id_header : String
  pub intake_lifecycle_enabled : Bool
  pub intake_lifecycle_default_status : String
  pub intake_lifecycle_require_reason : Bool
  pub intake_lifecycle_allow_free_text_notes : Bool
  pub intake_lifecycle_max_reason_length : ℕ
  pub intake_lifecycle_max_events_per_record : ℕ
  pub intake_lifecycle_mask_actor : Bool
  pub intake_lifecycle_hash_actor : Bool
  pub intake_lifecycle_expose_raw_payloads : Bool
  pub intake_lifecycle_expose_source_ids : Bool
  pub intake_lifecycle_expose_private_paths : Bool
  pub intake_lifecycle_fail_closed : Bool
  pub intake_review_workspace_include_attachment_summary : Bool
  pub intake_review_workspace_include_source_context : Bool
  pub intake_review_workspace_mask_source_ids : Bool
  pub intake_review_workspace_hash_source_ids : Bool
  pub triage_queue_enabled : Bool
  pub triage_queue_page_size : ℕ
  pub triage_queue_max_page_size : ℕ
  pub triage_queue_default_sort : String
  pub triage_queue_include_lifecycle : Bool
  pub triage_queue_include_attachment_signals : Bool
  pub triage_queue_include_source_context_signals : Bool
  pub triage_queue_recent_hours : ℕ
  pub triage_queue_older_than_hours : ℕ
  pub triage_queue_mask_source_ids : Bool
  pub triage_queue_hash_source_ids : Bool
  pub triage_queue_expose_raw_payloads : Bool
  pub triage_queue_expose_private_paths : Bool
  pub triage_queue_fail_closed : Bool

-- The defaults of the file.
abbrev pub default_settings : Settings
default_settings = record {
  sync_lock_timeout_minutes = 30;
  worker_id = "local-dev-worker";
  max_sync_lookback_days = 30;
  procore_live_mode_enabled = false;
  event_lock_timeout_minutes = 30;
  event_max_attempts = 5;
  event_worker_id = "local-dev-event-worker";
  webhooks_enabled = true;
  require_webhook_signature = false;
  webhook_signature_header = "x-procore-signature";
  webhook_secret_name = "";
  webhook_event_id_header = "x-procore-event-id";
  intake_lifecycle_enabled = true;
  intake_lifecycle_default_status = "new";
  intake_lifecycle_require_reason = true;
  intake_lifecycle_allow_free_text_notes = false;
  intake_lifecycle_max_reason_length = 120;
  intake_lifecycle_max_events_per_record = 100;
  intake_lifecycle_mask_actor = true;
  intake_lifecycle_hash_actor = true;
  intake_lifecycle_expose_raw_payloads = false;
  intake_lifecycle_expose_source_ids = false;
  intake_lifecycle_expose_private_paths = false;
  intake_lifecycle_fail_closed = true;
  intake_review_workspace_include_attachment_summary = true;
  intake_review_workspace_include_source_context = true;
  intake_review_workspace_mask_source_ids = true;
  intake_review_workspace_hash_source_ids = true;
  triage_queue_enabled = true;
  triage_queue_page_size = 25;
  triage_queue_max_page_size = 100;
  triage_queue_default_sort = "priority_desc";
  triage_queue_include_lifecycle = true;
  triage_queue_include_attachment_signals = true;
  triage_queue_include_source_context_signals = true;
  triage_queue_recent_hours = 72;
  triage_queue_older_than_hours = 168;
  triage_queue_mask_source_ids = true;
  triage_queue_hash_source_ids = true;
  triage_queue_expose_raw_payloads = false;
  triage_queue_expose_private_paths = false;
  triage_queue_fail_closed = true;
}
