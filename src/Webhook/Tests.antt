-- ===== src/Webhook/Tests.antt =====
-- The theorems on app/services/webhook_normalizer.py and app/routers/webhooks.py at samples.
use procore_intake_bridge.Base.{◌≡◌, false}
use procore_intake_bridge.Json.{Json, string, object, end, field}
use procore_intake_bridge.Webhook.Payload.{sanitize_payload}
use procore_intake_bridge.Webhook.Redaction.{leaks, sanitize_payload_lem}
use procore_intake_bridge.Base.{String, Option, ◌≤◌, str_eq, [], ◌∷◌, some, none, refl, true}
use procore_intake_bridge.Text.{
  text_length, strip, starts_folded, drop_characters, same_folded, fold_code,
}
use procore_intake_bridge.Memory.{MemorySession, memory, no_rows, opened}
use procore_intake_bridge.Models.{WebhookEvent}
use procore_intake_bridge.Models.Settings.{Settings, default_settings}
use procore_intake_bridge.EventQueue.Enqueue.{
  event_of, enqueue_webhook_event, store_event, find_by_event_id,
}
use procore_intake_bridge.Webhook.Normalizer.{Headers, normalize_procore_webhook_event}
use procore_intake_bridge.Webhook.Bounds.{normalize_bounds}
use procore_intake_bridge.Webhook.Signature.{
  Verifier, get_header, is_ascii, supplied_signature, compare_digest, verify_with,
  verify_webhook_signature,
}
use procore_intake_bridge.Webhook.Receive.{
  responded, http_error, safe_headers, receive_result, receive_checked, receive_payload, receive,
}
use procore_intake_bridge.Webhook.Signed.{IsSigned}
use procore_intake_bridge.Webhook.Reception.{
  receive-IsSigned, receive_refused_unchanged, receive-dry_run,
}
use procore_intake_bridge.Samples.{noon, sample_encodings, sample_delivery}

abbrev sample_payload : Json
sample_payload = object (
    field "id" (string "1")
      (field "callback" (object (field "Access_Token" (string "abc") end)) end))

sanitize_payload_lem_example :
    (leaks (sanitize_payload sample_payload) ≡ false)
    × (leaks sample_payload ≡ false → sanitize_payload sample_payload ≡ sample_payload)
    × (sanitize_payload (sanitize_payload sample_payload) ≡ sanitize_payload sample_payload)
sanitize_payload_lem_example = sanitize_payload_lem sample_payload

abbrev strict_settings : Settings
strict_settings = record default_settings {
  require_webhook_signature = true;
  webhook_secret_name = "webhook-secret";
}

-- A digest that is the secret's own, and a secret for every name.
abbrev sample_verifier : Verifier String
sample_verifier = record {
  get_secret = λ name. some "s3cr3t";
  hmac_hexdigest = λ secret body. "0a1b";
}

abbrev read_delivery : String → Option Json
read_delivery body = some (object sample_delivery)

abbrev never_fails : MemorySession → Option MemorySession
never_fails s = none

abbrev signed_headers : Headers
signed_headers = ("X-Procore-Signature", "sha256=0a1b") ∷ []

abbrev empty_session : MemorySession
empty_session = opened no_rows

normalize_bounds_example :
    let normalized = normalize_procore_webhook_event sample_encodings sample_delivery [] in
    (text_length normalized.event_id ≤ 128)
    × (str_eq normalized.event_id "" ≡ false)
    × (text_length normalized.event_type ≤ 200)
normalize_bounds_example = normalize_bounds sample_encodings sample_delivery []

abbrev stored_event : WebhookEvent
stored_event =
    event_of memory sample_encodings never_fails 30 sample_delivery [] "valid" noon no_rows

signed_is_answered :
    (receive read_delivery sample_verifier sample_encodings strict_settings memory never_fails true
      "body" signed_headers 30 noon empty_session).0
    ≡ responded (receive_result true stored_event false)
unfolding receive receive_payload receive_checked verify_webhook_signature verify_with
    supplied_signature compare_digest get_header safe_headers enqueue_webhook_event store_event
    find_by_event_id strip starts_folded drop_characters same_folded is_ascii fold_code
signed_is_answered = refl

receive-IsSigned_example : IsSigned sample_verifier strict_settings "body" signed_headers
receive-IsSigned_example =
    receive-IsSigned read_delivery sample_verifier sample_encodings strict_settings memory
      never_fails true "body" signed_headers 30 noon empty_session
      (receive_result true stored_event false) refl signed_is_answered

unsigned_is_refused :
    (receive read_delivery sample_verifier sample_encodings strict_settings memory never_fails true
      "body" [] 30 noon empty_session).0
    ≡ http_error 401 "Required webhook signature header is missing."
unfolding receive receive_payload receive_checked verify_webhook_signature get_header strip
unsigned_is_refused = refl

receive_refused_unchanged_example :
    (receive read_delivery sample_verifier sample_encodings strict_settings memory never_fails true
      "body" [] 30 noon empty_session).1
    ≡ empty_session
receive_refused_unchanged_example =
    receive_refused_unchanged read_delivery sample_verifier sample_encodings strict_settings memory
      never_fails true "body" [] 30 401 "Required webhook signature header is missing." noon
      empty_session unsigned_is_refused

receive-dry_run_example :
    (receive read_delivery sample_verifier sample_encodings strict_settings memory never_fails false
      "body" signed_headers 30 noon empty_session).1
    ≡ empty_session
receive-dry_run_example =
    receive-dry_run read_delivery sample_verifier sample_encodings strict_settings memory
      never_fails "body" signed_headers 30 noon empty_session
