-- ===== src/EventQueue/Enqueue.antt =====
-- app/services/event_queue.py: enqueue_webhook_event.
use procore_intake_bridge.Webhook.Normalizer.{
  NormalizedEvent, Encodings, Headers, normalize_procore_webhook_event,
}
use procore_intake_bridge.Base.{
  ℕ, String, Bool, true, false, Option, none, some, List, [], ◌∷◌, ◌++◌, if◌then◌else◌, str_eq,
}
use procore_intake_bridge.Json.{Json, Fields, object}
use procore_intake_bridge.Models.{
  Instant, ProcessingStatus, WebhookEvent, DmsaConnection, SyncProfile,
}
use procore_intake_bridge.Exceptions.{Result, returned, raised, other}
use procore_intake_bridge.Database.{Tables, Database}
use procore_intake_bridge.Webhook.Payload.{sanitize_payload}
use procore_intake_bridge.EventQueue.Events.{is_relevant, find_mapping}

unfoldable pub find_by_event_id : String → List WebhookEvent → Option WebhookEvent
find_by_event_id event_id [] = none
find_by_event_id event_id (e ∷ es) =
    if str_eq e.event_id event_id then some e else find_by_event_id event_id es

abbrev pub mapped_connection : Option (DmsaConnection × SyncProfile) → Option ℕ
mapped_connection none = none
mapped_connection (some (c, p)) = some c.id

abbrev pub mapped_profile : Option (DmsaConnection × SyncProfile) → Option ℕ
mapped_profile none = none
mapped_profile (some (c, p)) = some p.id

-- The row of a new event; `key` is the primary key that the database gives it.
unfoldable pub new_event :
    ℕ
    → NormalizedEvent
    → Json
    → String
    → Option (DmsaConnection × SyncProfile)
    → Instant
    → WebhookEvent
new_event key normalized payload signature_status mapping received_at =
    let relevant = is_relevant normalized.resource_type in
    record {
      id = key;
      connection_id = mapped_connection mapping;
      sync_profile_id = mapped_profile mapping;
      event_id = normalized.event_id;
      event_type = normalized.event_type;
      resource_type = normalized.resource_type;
      action = normalized.action;
      procore_company_id = normalized.procore_company_id;
      procore_project_id = normalized.procore_project_id;
      procore_item_id = normalized.procore_item_id;
      payload_json = payload;
      signature_status = signature_status;
      processing_status = if relevant then ProcessingStatus.queued else ProcessingStatus.skipped;
      received_at = received_at;
      available_at = received_at;
      processed_at = none;
      failure_count = 0;
      last_error_code = if relevant then none else some "UnknownResourceType";
      last_error_message =
          if relevant then none else some "Event resource type is unknown and was safely skipped.";
      locked_at = none;
      lock_owner = none;
    }

abbrev pub add_webhook_event : WebhookEvent → Tables → Tables
add_webhook_event e t = record t { webhook_events = t.webhook_events ++ (e ∷ []) }

-- `integrity_error s` is the session after the rollback of a commit of `s` that raised an
-- `IntegrityError`, none where the commit goes through.
module _ (db : Database) (encodings : Encodings)
    (integrity_error : db.Session → Option db.Session) where
  open db use {Session, tables, write, commit}

  -- After an integrity error: the row that another delivery has stored.
  unfoldable pub read_existing : String → Session → Result (WebhookEvent × Bool) × Session
  read_existing event_id s = elim (find_by_event_id event_id (tables s).webhook_events) [
    | none ↦ (raised (other "IntegrityError" ""), s)
    | some existing ↦ (returned (existing, true), s)
  ]

  unfoldable pub store_event : WebhookEvent → Session → Result (WebhookEvent × Bool) × Session
  store_event event s =
      let added = write (add_webhook_event event (tables s)) s in
      elim (integrity_error added) [
        | none ↦ (returned (event, false), commit added)
        | some s1 ↦ read_existing event.event_id s1
      ]

  -- The event that a delivery makes.
  unfoldable pub event_of : ℕ → Fields → Headers → String → Instant → Tables → WebhookEvent
  event_of key payload headers signature_status received_at t =
      let normalized = normalize_procore_webhook_event encodings payload headers in
      let mapping =
        find_mapping normalized.procore_company_id normalized.procore_project_id
          normalized.resource_type t in
      new_event key normalized (sanitize_payload (object payload)) signature_status mapping
        received_at

  unfoldable pub enqueue_webhook_event :
      ℕ
      → Fields
      → Headers
      → String
      → Bool
      → Instant
      → Session
      → Result (WebhookEvent × Bool) × Session
  enqueue_webhook_event key payload headers signature_status persist received_at s =
      let normalized = normalize_procore_webhook_event encodings payload headers in
      elim (find_by_event_id normalized.event_id (tables s).webhook_events) [
        | some existing ↦ (returned (existing, true), s)
        | none ↦
            let event = event_of key payload headers signature_status received_at (tables s) in
            if persist then store_event event s else (returned (event, false), s)
      ]
