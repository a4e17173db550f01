-- ===== src/Samples.antt =====
-- Rows and syncs on which the tests run.
use procore_intake_bridge.Webhook.Normalizer.{Encodings}
use procore_intake_bridge.Text.{text_length}
use procore_intake_bridge.Base.{◌+◌, Bool, true, false, ◌∷◌, [], none, some, refl, ◌≡◌, ap, String}
use procore_intake_bridge.Json.{Json, Fields, field, string, end}
use procore_intake_bridge.Models.{
  IntakeRecord, Instant, minutes, days, rfi, ProcessingStatus, mock, DmsaConnection, SyncProfile,
  WebhookEvent,
}
use procore_intake_bridge.Exceptions.{returned, raised, other}
use procore_intake_bridge.Database.{Tables}
use procore_intake_bridge.Lifecycle.Texts.{Patterns}
use procore_intake_bridge.Memory.{MemorySession, memory, no_rows, opened}
use procore_intake_bridge.Polling.{IntakeSync}

abbrev pub noon : Instant
noon = days 40

abbrev pub half_past : Instant
half_past = noon + minutes 30

abbrev pub sample_connection : DmsaConnection
sample_connection = record {
  id = 3;
  procore_company_id = "company-1";
  permitted_project_ids = "project-1" ∷ [];
  enabled_tools = "rfis" ∷ [];
  client_id_ref = none;
  secret_name = "secret-1";
}

abbrev pub sample_profile : SyncProfile
sample_profile = record {
  id = 7;
  connection_id = 3;
  procore_project_id = "project-1";
  enabled = true;
  sync_rfis = true;
  sync_submittals = false;
  polling_interval_minutes = 60;
  mode = mock;
  last_successful_sync_at = none;
  last_attempted_sync_at = none;
  next_run_at = none;
  last_watermark_at = none;
  consecutive_failure_count = 2;
  last_error_code = some "OSError";
  last_error_message = none;
  locked_at = none;
  lock_owner = none;
}

-- The same profile while a worker runs it.
abbrev pub held_profile : SyncProfile
held_profile = record sample_profile { locked_at = some noon; lock_owner = some "worker-1" }

abbrev pub sample_event : WebhookEvent
sample_event = record {
  id = 11;
  connection_id = none;
  sync_profile_id = none;
  event_id = "event-1";
  event_type = "rfi.update";
  resource_type = rfi;
  action = "update";
  procore_company_id = some "company-1";
  procore_project_id = some "project-1";
  procore_item_id = none;
  payload_json = Json.null;
  signature_status = "not_configured";
  processing_status = ProcessingStatus.queued;
  received_at = noon;
  available_at = noon;
  processed_at = none;
  failure_count = 4;
  last_error_code = none;
  last_error_message = none;
  locked_at = none;
  lock_owner = none;
}

abbrev pub second_event : WebhookEvent
second_event = record sample_event { id = 12; event_id = "event-2"; failure_count = 0 }

abbrev pub sample_tables : Tables
sample_tables = record no_rows {
  connections = sample_connection ∷ [];
  sync_profiles = sample_profile ∷ [];
  webhook_events = sample_event ∷ second_event ∷ [];
}

abbrev pub sample_session : MemorySession
sample_session = opened sample_tables

abbrev pub held_session : MemorySession
held_session = opened (record sample_tables { sync_profiles = held_profile ∷ [] })

abbrev pub stored_run : MemorySession → MemorySession
stored_run s = record s {
  current = record s.current {
    sync_runs =
        record {
          id = 1;
          connection_id = 3;
          completed = true;
          record_count = 2;
          attachment_count = 0;
        }
        ∷ s.current.sync_runs;
  };
}

abbrev pub add_run : Bool → MemorySession → MemorySession
add_run true s = s
add_run false s = stored_run s

pub add_run-stored : (dry : Bool) (s : MemorySession) → (add_run dry s).stored ≡ s.stored
add_run-stored true s = refl
add_run-stored false s = refl

pub add_run-sync_profiles :
    (dry : Bool) (s : MemorySession)
    → (add_run dry s).current.sync_profiles ≡ s.current.sync_profiles
add_run-sync_profiles true s = refl
add_run-sync_profiles false s = refl

pub add_run-webhook_events :
    (dry : Bool) (s : MemorySession)
    → (add_run dry s).current.webhook_events ≡ s.current.webhook_events
add_run-webhook_events true s = refl
add_run-webhook_events false s = refl

-- A sync that stores its run, and one that fails.
abbrev pub working_sync : IntakeSync memory
working_sync = record {
  sync_connection = λ r s. (
    returned (record { sync_run_id = some 1; record_count = 2; attachment_count = 0 }),
    add_run r.dry_run s,
  );
  sync-rollback = λ r s. ap (λ k. record { current = k; stored = k }) (add_run-stored r.dry_run s);
  sync-sync_profiles = λ r s. add_run-sync_profiles r.dry_run s;
  sync-webhook_events = λ r s. add_run-webhook_events r.dry_run s;
  sync-dry_run = λ r s h. ap (λ dry. add_run dry s) h;
}

abbrev pub failing_sync : IntakeSync memory
failing_sync = record {
  sync_connection = λ r s. (raised (other "TimeoutError" "slow"), s);
  sync-rollback = λ r s. refl;
  sync-sync_profiles = λ r s. refl;
  sync-webhook_events = λ r s. refl;
  sync-dry_run = λ r s h. refl;
}

abbrev pub sixty_four : String
sixty_four = "0123456789abcdef0123456789abcdef0123456789abcdef0123456789abcdef"

pub sixty_four_length : text_length sixty_four ≡ 64
unfolding text_length
sixty_four_length = refl

-- A digest that is the same for every text.
abbrev pub sample_encodings : Encodings
sample_encodings = record {
  repr = λ value. "{}";
  canonical_dumps = λ value. "{}";
  sha256_hexdigest = λ text. sixty_four;
  length-sha256_hexdigest = λ text. sixty_four_length;
}

abbrev pub sample_delivery : Fields
sample_delivery =
    field "event_id" (string "event-9")
      (field "resource_type" (string "rfi") (field "project_id" (string "project-1") end))

abbrev pub sample_patterns : Patterns
sample_patterns = record {
  redact_urls = λ text. text;
  redact_private_paths = λ text. text;
  redact_secrets = λ text. text;
  search_forbidden = λ text. false;
  search_url = λ text. false;
  search_private_path = λ text. false;
  search_secret = λ text. false;
  sha256_hexdigest = λ text. "0123456789abcdef";
  dumps = λ A a. "{}";
}

abbrev pub sample_record : IntakeRecord
sample_record = record {
  id = 5;
  source_type = "rfi";
  procore_project_id = "project-1";
  procore_item_id = "item-1";
  number = "RFI-1";
  title = "Door";
  status = "open";
  due_date = none;
  received_at = none;
  source_updated_at = none;
  raw_payload_json = Json.null;
  attachment_count = 0;
  sync_run_id = 1;
  updated_at = 0;
}
