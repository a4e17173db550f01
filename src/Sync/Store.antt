-- ===== src/Sync/Store.antt =====
-- app/services/intake_sync.py: the keys and contents of records, and the requests for attachments.
-- `Storage` is what a sync asks of app/services/attachment_storage.py: the plan for an attachment, and the
-- name of its file.
use procore_intake_bridge.Base.{ℕ, String, Bool, ◌&&◌, Option, some, if◌then◌else◌, str_eq}
use procore_intake_bridge.Exceptions.{Result}
use procore_intake_bridge.Json.{Json, Items, Fields, string, array, object, nil, cons, end, field}
use procore_intake_bridge.Models.{Instant, IntakeRecord}
use procore_intake_bridge.Database.{Tables}
use procore_intake_bridge.Text.{contains_folded}
use procore_intake_bridge.Sync.Source.{FixtureItem, FixtureAttachment}

unfoldable mutual
  -- `_sanitize_source_payload`.
  pub sanitize_source_payload : Json → Json
  sanitize_source_payload (object fields) = object (sanitize_source_fields fields)
  sanitize_source_payload (array items) = array (sanitize_source_items items)
  sanitize_source_payload value = value

  pub sanitize_source_items : Items → Items
  sanitize_source_items nil = nil
  sanitize_source_items (cons item items) =
      cons (sanitize_source_payload item) (sanitize_source_items items)

  pub sanitize_source_fields : Fields → Fields
  sanitize_source_fields end = end
  sanitize_source_fields (field key item fields) =
      let kept = sanitize_source_payload item in
      field key (if contains_folded "url" key then string "[REDACTED]" else kept)
        (sanitize_source_fields fields)

-- The columns under which a record is unique.
pub record SourceKey : Type 0 where
  pub source_type : String
  pub procore_project_id : String
  pub procore_item_id : String

unfoldable pub same_source : SourceKey → SourceKey → Bool
same_source a b =
    str_eq a.source_type b.source_type
    && str_eq a.procore_project_id b.procore_project_id
    && str_eq a.procore_item_id b.procore_item_id

abbrev pub source_of : IntakeRecord → SourceKey
source_of r = record {
  source_type = r.source_type;
  procore_project_id = r.procore_project_id;
  procore_item_id = r.procore_item_id;
}

abbrev pub entry_source : String × FixtureItem → SourceKey
entry_source (source_type, item) = record {
  source_type = source_type;
  procore_project_id = item.project_id;
  procore_item_id = item.id;
}

-- What a sync writes in a record.
pub record RecordContent : Type 0 where
  pub number : String
  pub title : String
  pub status : String
  pub due_date : Option Instant
  pub received_at : Option Instant
  pub source_updated_at : Option Instant
  pub raw_payload_json : Json
  pub attachment_count : ℕ
  pub sync_run_id : ℕ

pub record AttachmentPlanRequest : Type 0 where
  pub intake_record_id : Option ℕ
  pub sync_run_id : Option ℕ
  pub connection_id : Option ℕ
  pub sync_profile_id : Option ℕ
  pub source_type : String
  pub procore_project_id : Option String
  pub procore_item_id : Option String
  pub procore_attachment_id : Option String
  pub original_filename : String
  pub content_type : Option String
  pub size_bytes : Option ℕ
  pub source_url : Option String

pub record AttachmentPlan : Type 0 where
  pub safe_filename : String
  pub storage_backend : String
  pub storage_key : String
  pub source_url_present : Bool
  pub source_url_hash : Option String

pub record Storage : Type 0 where
  pub plan_attachment_storage : AttachmentPlanRequest → Result AttachmentPlan
  pub sanitize_filename : String → String

-- The primary keys that the database gives new rows.
pub record Keys : Type 0 where
  pub run_key : Tables → ℕ
  pub record_key : Tables → ℕ
  pub object_key : Tables → ℕ

-- `attachment.get("filename") or "attachment.bin"`.
abbrev pub filename_or_default : String → String
filename_or_default text = if str_eq text "" then "attachment.bin" else text

unfoldable pub attachment_request :
    ℕ
    → Option ℕ
    → Option ℕ
    → Option ℕ
    → String × FixtureItem
    → FixtureAttachment
    → AttachmentPlanRequest
attachment_request connection_id intake_record_id sync_run_id sync_profile_id (source_type, item)
      attachment =
    record {
      intake_record_id = intake_record_id;
      sync_run_id = sync_run_id;
      connection_id = some connection_id;
      sync_profile_id = sync_profile_id;
      source_type = source_type;
      procore_project_id = some item.project_id;
      procore_item_id = some item.id;
      procore_attachment_id = some attachment.id;
      original_filename = filename_or_default attachment.filename;
      content_type = attachment.content_type;
      size_bytes = attachment.size_bytes;
      source_url = attachment.source_url;
    }
