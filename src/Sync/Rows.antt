-- ===== src/Sync/Rows.antt =====
-- app/services/intake_sync.py and app/services/attachment_storage.py: the rows that a sync writes.
use procore_intake_bridge.Base.{
  ℕ, String, Bool, true, false, ◌&&◌, not, Option, none, some, List, [], ◌∷◌, ◌++◌, if◌then◌else◌,
  str_eq, ◌==◌, select,
}
use procore_intake_bridge.Exceptions.{Result, returned, raised, value_error}
use procore_intake_bridge.Models.{Instant, IntakeRecord, IntakeAttachment, AttachmentObject}
use procore_intake_bridge.Database.{Tables}
use procore_intake_bridge.Sync.Source.{FixtureItem, normalize, FixtureAttachment, Fixtures}
use procore_intake_bridge.Sync.Store.{
  SourceKey, RecordContent, AttachmentPlanRequest, AttachmentPlan, Storage, sanitize_source_payload,
}

-- `parse(text) if text else None`.
abbrev pub optional_date : (String → Option Instant) → Option String → Result (Option Instant)
optional_date parse none = returned none
optional_date parse (some text) = if str_eq text "" then returned none else elim (parse text) [
  | none ↦ raised (value_error "Invalid isoformat string")
  | some date ↦ returned (some date)
]

-- What an item writes in its record, or what reading its dates raises.
unfoldable pub content_of : Fixtures → ℕ → String × FixtureItem → Result RecordContent
unfolding sanitize_source_payload normalize
content_of fixtures run_id (source_type, item) =
    let normalized = normalize source_type item in
    elim (optional_date fixtures.parse_date normalized.due_date) [
      | raised e ↦ raised e
      | returned due ↦ elim (optional_date fixtures.parse_datetime normalized.received_at) [
        | raised e ↦ raised e
        | returned received ↦ elim (optional_date fixtures.parse_datetime normalized.updated_at) [
          | raised e ↦ raised e
          | returned updated ↦ returned (record {
            number = normalized.number;
            title = normalized.title;
            status = normalized.status;
            due_date = due;
            received_at = received;
            source_updated_at = updated;
            raw_payload_json = sanitize_source_payload item.raw;
            attachment_count = normalized.attachment_count;
            sync_run_id = run_id;
          })
        ]
      ]
    ]

abbrev pub or_kept : Result (Option Instant) → Option Instant → Option Instant
or_kept (raised e) kept = kept
or_kept (returned date) kept = date

-- What the assignments up to the first date that cannot be read leave in a stored record.
unfoldable pub assign_read : Fixtures → String × FixtureItem → Instant → IntakeRecord → IntakeRecord
unfolding normalize
assign_read fixtures (source_type, item) now r =
    let normalized = normalize source_type item in
    let due = optional_date fixtures.parse_date normalized.due_date in
    record r {
      number = normalized.number;
      title = normalized.title;
      status = normalized.status;
      due_date = or_kept due r.due_date;
      received_at = elim due [
        | raised e ↦ r.received_at
        | returned date ↦
            or_kept (optional_date fixtures.parse_datetime normalized.received_at) r.received_at
      ];
      updated_at = now;
    }

abbrev pub kept_id : ℕ → Option IntakeRecord → ℕ
kept_id key none = key
kept_id key (some r) = r.id

-- The row of a record after the sync of its item: the existing one, or a new one under `key`.
unfoldable pub stored_record :
    ℕ → SourceKey → RecordContent → Instant → Option IntakeRecord → IntakeRecord
stored_record key source content now existing = record {
  id = kept_id key existing;
  source_type = source.source_type;
  procore_project_id = source.procore_project_id;
  procore_item_id = source.procore_item_id;
  number = content.number;
  title = content.title;
  status = content.status;
  due_date = content.due_date;
  received_at = content.received_at;
  source_updated_at = content.source_updated_at;
  raw_payload_json = content.raw_payload_json;
  attachment_count = content.attachment_count;
  sync_run_id = content.sync_run_id;
  updated_at = now;
}

abbrev pub same_option : {A : Type 0} → (A → A → Bool) → Option A → Option A → Bool
same_option same none none = true
same_option same (some a) (some b) = same a b
same_option same _ _ = false

-- The columns of `_find_existing`, a missing value being the same as a missing one.
unfoldable pub is_request_object : AttachmentPlanRequest → AttachmentObject → Bool
is_request_object request object =
    same_option ◌==◌ object.connection_id request.connection_id
    && same_option str_eq object.procore_project_id request.procore_project_id
    && str_eq object.source_type request.source_type
    && same_option str_eq object.procore_item_id request.procore_item_id
    && same_option str_eq object.procore_attachment_id request.procore_attachment_id

abbrev pub is_downloaded : Option AttachmentObject → Bool
is_downloaded none = false
is_downloaded (some object) = str_eq object.download_status "downloaded"

-- The row that `create_attachment_manifest_record` makes of the existing one or of none.
unfoldable pub manifest_object :
    Storage
    → ℕ
    → AttachmentPlanRequest
    → AttachmentPlan
    → Option AttachmentObject
    → AttachmentObject
manifest_object storage key request plan existing =
    let earlier : (AttachmentObject → Option String) → Option String =
      λ column. elim existing [ none ↦ none | some object ↦ column object ] in
    let downloaded = is_downloaded existing in
    record {
      id = elim existing [ none ↦ key | some object ↦ object.id ];
      intake_record_id = request.intake_record_id;
      sync_run_id = request.sync_run_id;
      connection_id = request.connection_id;
      sync_profile_id = request.sync_profile_id;
      source_type = request.source_type;
      procore_project_id = request.procore_project_id;
      procore_item_id = request.procore_item_id;
      procore_attachment_id = request.procore_attachment_id;
      original_filename = storage.sanitize_filename request.original_filename;
      safe_filename = plan.safe_filename;
      content_type = request.content_type;
      size_bytes = request.size_bytes;
      source_url_present = plan.source_url_present;
      source_url_hash = plan.source_url_hash;
      storage_backend = plan.storage_backend;
      storage_key = plan.storage_key;
      storage_path = plan.storage_key;
      checksum_sha256 = earlier (λ object. object.checksum_sha256);
      download_status = if downloaded then "downloaded" else "planned";
      failure_code = if downloaded then earlier (λ object. object.failure_code) else none;
      failure_message = if downloaded then earlier (λ object. object.failure_message) else none;
    }

-- The existing row changed, or a new one added.
unfoldable pub write_object :
    (AttachmentObject → Bool)
    → (Option AttachmentObject → AttachmentObject)
    → List AttachmentObject
    → List AttachmentObject
write_object matches f [] = f none ∷ []
write_object matches f (object ∷ objects) =
    let rest = write_object matches f objects in
    if matches object then f (some object) ∷ objects else object ∷ rest

abbrev pub is_attachment_of_other : ℕ → IntakeAttachment → Bool
is_attachment_of_other i attachment = not (attachment.intake_record_id == i)

-- `record.attachments.clear()` of an existing record, which deletes the rows.
abbrev pub clear_attachments : Option IntakeRecord → Tables → Tables
clear_attachments none t = t
clear_attachments (some r) t = record t {
  intake_attachments = select (is_attachment_of_other r.id) t.intake_attachments;
}

abbrev pub add_attachment : ℕ → FixtureAttachment → Tables → Tables
add_attachment i attachment t = record t {
  intake_attachments =
      t.intake_attachments
      ++ (record {
        intake_record_id = i;
        procore_attachment_id = attachment.id;
        filename = attachment.filename;
        content_type = attachment.content_type;
        source_url_redacted = none;
      }
          ∷ []);
}
