-- ===== src/Webhook/Receive.antt =====
-- app/routers/webhooks.py: the reception of a delivery, and the routes of stored events.
use procore_intake_bridge.EventQueue.Enqueue.{enqueue_webhook_event}
use procore_intake_bridge.EventQueue.Events.{replay_webhook_event}
use procore_intake_bridge.Webhook.Normalizer.{Headers, Encodings}
use procore_intake_bridge.Database.Writes.{find_event}
use procore_intake_bridge.Models.Settings.{Settings}
use procore_intake_bridge.Database.{Database}
use procore_intake_bridge.Json.{Json, object, Fields}
use procore_intake_bridge.Webhook.Signature.{
  get_header, Verifier, SignatureCheck, verify_webhook_signature, refused, checked,
  signature_status_text, type_error,
}
use procore_intake_bridge.Models.{ResourceType, WebhookEvent, ProcessingStatus, Instant}
use procore_intake_bridge.Exceptions.{Exception, Result, returned, raised, other}
use procore_intake_bridge.Base.{
  ℕ, String, Bool, true, false, ◌&&◌, not, Option, none, some, [], ◌∷◌, if◌then◌else◌, str_eq,
}

-- A response, an `HTTPException` with its status, or another exception, which the server answers by 500.
pub data Response (A : Type 0) : Type 0 where
  responded : A → Response A
  http_error : ℕ → String → Response A
  failed : Exception → Response A

pub record WebhookReceiveResult : Type 0 where
  pub persisted : Bool
  pub duplicate : Bool
  pub webhook_event_id : Option ℕ
  pub event_id : String
  pub resource_type : ResourceType
  pub action : String
  pub signature_status : String
  pub processing_status : ProcessingStatus
  pub message : String

-- The only header that is passed on, where it is not empty.
unfoldable pub safe_headers : Settings → Headers → Headers
unfolding get_header
safe_headers settings headers = elim (get_header settings.webhook_event_id_header headers) [
  | none ↦ []
  | some value ↦ if str_eq value "" then [] else (settings.webhook_event_id_header, value) ∷ []
]

unfoldable pub receive_message : Bool → Bool → String
receive_message persist true = "Duplicate event already exists."
receive_message true false = "Webhook event stored for later processing."
receive_message false false = "Webhook dry run completed without persistence."

unfoldable pub receive_result : Bool → WebhookEvent → Bool → WebhookReceiveResult
unfolding receive_message
receive_result persist event duplicate = record {
  persisted = persist && not duplicate;
  duplicate = duplicate;
  webhook_event_id = if persist then some event.id else none;
  event_id = event.event_id;
  resource_type = event.resource_type;
  action = event.action;
  signature_status = event.signature_status;
  processing_status = event.processing_status;
  message = receive_message persist duplicate;
}

abbrev pub receive_response : Bool → Result (WebhookEvent × Bool) → Response WebhookReceiveResult
receive_response persist (returned (event, duplicate)) =
    responded (receive_result persist event duplicate)
receive_response persist (raised e) = failed e

module _ {Bytes : Type 0} (loads : Bytes → Option Json) (verifier : Verifier Bytes)
    (encodings : Encodings) (settings : Settings) (db : Database)
    (integrity_error : db.Session → Option db.Session) where
  open db use {Session, tables}

  -- A delivery whose signature was checked.
  unfoldable pub receive_checked :
      Bool
      → SignatureCheck
      → Fields
      → Headers
      → ℕ
      → Instant
      → Session
      → Response WebhookReceiveResult × Session
  receive_checked persist (refused detail) payload headers key now s = (http_error 401 detail, s)
  receive_checked persist type_error payload headers key now s =
      (failed (other "TypeError" "comparing strings with non-ASCII characters is not supported"), s)
  receive_checked persist (checked status) payload headers key now s =
      let (r, s1) =
        enqueue_webhook_event db encodings integrity_error key payload
          (safe_headers settings headers) (signature_status_text status) persist now s in
      (receive_response persist r, s1)

  unfoldable pub receive_payload :
      Bool
      → Bytes
      → Headers
      → ℕ
      → Instant
      → Option Json
      → Session
      → Response WebhookReceiveResult × Session
  receive_payload persist body headers key now none s =
      (http_error 400 "Webhook body must be valid JSON.", s)
  receive_payload persist body headers key now (some (object payload)) s =
      receive_checked persist (verify_webhook_signature verifier settings body headers) payload
        headers key now s
  receive_payload persist body headers key now (some value) s =
      (http_error 422 "Webhook body must be a JSON object.", s)

  -- `_receive`; `key` is the primary key that a new row gets, and `now` what the clock says.
  unfoldable pub receive :
      Bool → Bytes → Headers → ℕ → Instant → Session → Response WebhookReceiveResult × Session
  receive persist body headers key now s =
      if not settings.webhooks_enabled
      then (http_error 503 "Webhook receiving is disabled.", s)
      else receive_payload persist body headers key now (loads body) s

  unfoldable pub receive_procore_webhook :
      Bytes → Headers → ℕ → Instant → Session → Response WebhookReceiveResult × Session
  receive_procore_webhook = receive true

  unfoldable pub dry_run_procore_webhook :
      Bytes → Headers → ℕ → Instant → Session → Response WebhookReceiveResult × Session
  dry_run_procore_webhook = receive false

module _ (db : Database) where
  open db use {Session, tables}

  unfoldable pub webhook_event_route : ℕ → Session → Response WebhookEvent
  webhook_event_route i s = elim (find_event i (tables s)) [
    | none ↦ http_error 404 "Webhook event not found"
    | some event ↦ responded event
  ]

  -- The replayed row is read back after its commit.
  unfoldable pub replay_event : ℕ → Instant → Session → Response WebhookEvent × Session
  replay_event i now s = elim (find_event i (tables s)) [
    | none ↦ (http_error 404 "Webhook event not found", s)
    | some event ↦ let s1 = replay_webhook_event db i now s in (webhook_event_route i s1, s1)
  ]
