-- ===== src/EventQueue/Listing.antt =====
-- `list_webhook_events` of app/services/event_queue.py.
use procore_intake_bridge.Base.{
  String, Bool, true, ◌&&◌, Option, none, some, List, leb, str_eq, if◌then◌else◌, select,
}
use procore_intake_bridge.Base.Sort.{sort}
use procore_intake_bridge.Models.{
  ResourceType, rfi, submittal, unknown, ProcessingStatus, WebhookEvent,
}
use procore_intake_bridge.Database.{Tables}

abbrev pub processing_status_text : ProcessingStatus → String
processing_status_text ProcessingStatus.queued = "queued"
processing_status_text ProcessingStatus.processing = "processing"
processing_status_text ProcessingStatus.processed = "processed"
processing_status_text ProcessingStatus.skipped = "skipped"
processing_status_text ProcessingStatus.failed = "failed"

abbrev pub resource_type_text : ResourceType → String
resource_type_text rfi = "rfi"
resource_type_text submittal = "submittal"
resource_type_text unknown = "unknown"

-- A filter that is not given, or empty, lets every row through.
abbrev pub passes_filter : Option String → String → Bool
passes_filter none column = true
passes_filter (some value) column = if str_eq value "" then true else str_eq column value

unfoldable pub is_listed : Option String → Option String → WebhookEvent → Bool
is_listed processing_status resource_type e =
    passes_filter processing_status (processing_status_text e.processing_status)
    && passes_filter resource_type (resource_type_text e.resource_type)

-- ORDER BY id DESC.
abbrev pub is_later : WebhookEvent → WebhookEvent → Bool
is_later a b = leb b.id a.id

unfoldable pub list_webhook_events : Option String → Option String → Tables → List WebhookEvent
unfolding is_listed sort select
list_webhook_events processing_status resource_type t =
    sort is_later (select (is_listed processing_status resource_type) t.webhook_events)
