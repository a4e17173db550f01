-- ===== src/Webhook/Reception.antt =====
-- Which deliveries app/routers/webhooks.py accepts, and what it leaves of the others.
use procore_intake_bridge.Exceptions.{Result, returned, raised}
use procore_intake_bridge.Models.{Instant, WebhookEvent}
use procore_intake_bridge.Webhook.Receive.{
  receive_checked, receive, WebhookReceiveResult, http_error, responded, Response, receive_payload,
  receive_response, safe_headers,
}
use procore_intake_bridge.Database.{Database}
use procore_intake_bridge.EventQueue.Enqueue.{enqueue_webhook_event, find_by_event_id}
use procore_intake_bridge.Webhook.Normalizer.{Headers, Encodings, normalize_procore_webhook_event}
use procore_intake_bridge.Json.{Json, Fields, object, bool, number, string, array, null}
use procore_intake_bridge.Models.Settings.{Settings}
use procore_intake_bridge.Webhook.Signature.{
  Verifier, verify_webhook_signature, SignatureStatus, checked, SignatureCheck, refused,
  signature_status_text,
}
use procore_intake_bridge.Base.{
  ◌≡◌, ◌∙◌, refl, ap, sym, Bool, true, false, some, none, Option-cases, Bool-cases, inl, inr,
  Option, String, ℕ, ◌⊎◌, ◌≢◌,
}
use procore_intake_bridge.Webhook.Signed.{IsSigned, verify-IsSigned}

module _ {Bytes : Type 0} (loads : Bytes → Option Json) (verifier : Verifier Bytes)
    (encodings : Encodings) (settings : Settings) (db : Database)
    (integrity_error : db.Session → Option db.Session) where
  open db use {Session, tables}

  abbrev outcome :
      Bool → Bytes → Headers → ℕ → Instant → Session → Response WebhookReceiveResult × Session
  outcome = receive loads verifier encodings settings db integrity_error

  abbrev checked_outcome :
      Bool
      → Bytes
      → Headers
      → Fields
      → ℕ
      → Instant
      → Session
      → Response WebhookReceiveResult × Session
  checked_outcome persist body headers payload key now s =
      receive_checked loads verifier encodings settings db integrity_error persist
        (verify_webhook_signature verifier settings body headers) payload headers key now s

  payload_cases :
      (persist : Bool) (body : Bytes) (headers : Headers) (key : ℕ) (now : Instant)
      (value : Option Json) (s : Session)
      → ((code : ℕ) × ((detail : String) × (receive_payload loads verifier encodings settings db
                integrity_error persist body headers key now value s
              ≡ (http_error code detail, s))))
        ⊎ ((payload : Fields) × (value ≡ some (object payload))
            × (receive_payload loads verifier encodings settings db integrity_error persist body
                  headers key now value s
                ≡ checked_outcome persist body headers payload key now s))
  unfolding receive_payload
  payload_cases persist body headers key now none s = inl (400, (_, refl))
  payload_cases persist body headers key now (some null) s = inl (422, (_, refl))
  payload_cases persist body headers key now (some (bool b)) s = inl (422, (_, refl))
  payload_cases persist body headers key now (some (number zero text)) s = inl (422, (_, refl))
  payload_cases persist body headers key now (some (string text)) s = inl (422, (_, refl))
  payload_cases persist body headers key now (some (array items)) s = inl (422, (_, refl))
  payload_cases persist body headers key now (some (object payload)) s = inr (payload, refl, refl)

  -- A delivery is refused before its signature is looked at, or it is a JSON object.
  receive_cases :
      (persist : Bool) (body : Bytes) (headers : Headers) (key : ℕ) (now : Instant) (s : Session)
      → ((code : ℕ) × ((detail : String) × (outcome persist body headers key now s
              ≡ (http_error code detail, s))))
        ⊎ ((payload : Fields) × (loads body ≡ some (object payload))
            × (outcome persist body headers key now s
                ≡ checked_outcome persist body headers payload key now s))
  unfolding receive
  receive_cases persist body headers key now s = elim (Bool-cases settings.webhooks_enabled) [
    | inr disabled ↦ inl (503, ("Webhook receiving is disabled.", rw disabled))
    | inl enabled ↦ simp enabled (payload_cases persist body headers key now (loads body) s)
  ]

  checked_of_responded :
      (persist : Bool) (check : SignatureCheck) (payload : Fields) (headers : Headers) (key : ℕ)
      (now : Instant) (s : Session) (result : WebhookReceiveResult)
      → (receive_checked loads verifier encodings settings db integrity_error persist check payload
          headers key now s).0
        ≡ responded result
      → (status : SignatureStatus) × (check ≡ checked status)
  unfolding receive_checked
  checked_of_responded persist (checked status) payload headers key now s result h = (status, refl)
  checked_of_responded persist (refused detail) payload headers key now s result h = cc
  checked_of_responded persist SignatureCheck.type_error payload headers key now s result h = cc

  response-ne-http_error :
      (persist : Bool) (r : Result (WebhookEvent × Bool)) (code : ℕ) (detail : String)
      → receive_response persist r ≢ http_error code detail
  response-ne-http_error persist (returned (event, duplicate)) code detail h = cc
  response-ne-http_error persist (raised e) code detail h = cc

  checked_unchanged :
      (persist : Bool) (check : SignatureCheck) (payload : Fields) (headers : Headers)
      (key code : ℕ) (detail : String) (now : Instant) (s : Session)
      → (receive_checked loads verifier encodings settings db integrity_error persist check payload
          headers key now s).0
        ≡ http_error code detail
      → (receive_checked loads verifier encodings settings db integrity_error persist check payload
          headers key now s).1
        ≡ s
  unfolding receive_checked
  checked_unchanged persist (checked status) payload headers key code detail now s h =
      absurd (response-ne-http_error persist _ code detail h)
  checked_unchanged persist (refused text) payload headers key code detail now s h = refl
  checked_unchanged persist SignatureCheck.type_error payload headers key code detail now s h = refl

  enqueue_dry_run :
      (key : ℕ) (payload : Fields) (headers : Headers) (status : String) (now : Instant)
      (s : Session)
      → (enqueue_webhook_event db encodings integrity_error key payload headers status false now
          s).1
        ≡ s
  unfolding enqueue_webhook_event
  enqueue_dry_run key payload headers status now s =
      elim (Option-cases (
        find_by_event_id (normalize_procore_webhook_event encodings payload headers).event_id
          (tables s).webhook_events)) [
            | inl missing ↦ rw (missing, enqueue_webhook_event)
            | inr (existing, found) ↦ rw (found, enqueue_webhook_event)
          ]

  checked_dry_run :
      (check : SignatureCheck) (payload : Fields) (headers : Headers) (key : ℕ) (now : Instant)
      (s : Session)
      → (receive_checked loads verifier encodings settings db integrity_error false check payload
          headers key now s).1
        ≡ s
  unfolding receive_checked
  checked_dry_run (checked status) payload headers key now s =
      enqueue_dry_run key payload (safe_headers settings headers) (signature_status_text status) now
        s
  checked_dry_run (refused text) payload headers key now s = refl
  checked_dry_run SignatureCheck.type_error payload headers key now s = refl

  -- Where signatures are required, a delivery is answered by a result, stored or not, only if it is
  -- signed.
  pub receive-IsSigned :
      (persist : Bool) (body : Bytes) (headers : Headers) (key : ℕ) (now : Instant) (s : Session)
      (result : WebhookReceiveResult)
      → settings.require_webhook_signature ≡ true
      → (receive loads verifier encodings settings db integrity_error persist body headers key now
          s).0
        ≡ responded result
      → IsSigned verifier settings body headers
  receive-IsSigned persist body headers key now s result required h =
      elim (receive_cases persist body headers key now s) [
        | inl (code, (detail, out)) ↦
            cc (sym h ∙ ap (λ (o : Response WebhookReceiveResult × Session). o.0) out)
        | inr (payload, parsed, out) ↦
            let (status, valid) =
              checked_of_responded persist _ payload headers key now s result (rw out at h) in
            verify-IsSigned verifier settings body headers status required valid
      ]

  -- A delivery that is refused with a status of HTTP, at whatever test, changes nothing.
  pub receive_refused_unchanged :
      (persist : Bool) (body : Bytes) (headers : Headers) (key code : ℕ) (detail : String)
      (now : Instant) (s : Session)
      → (receive loads verifier encodings settings db integrity_error persist body headers key now
          s).0
        ≡ http_error code detail
      → (receive loads verifier encodings settings db integrity_error persist body headers key now
          s).1
        ≡ s
  receive_refused_unchanged persist body headers key code detail now s h =
      elim (receive_cases persist body headers key now s) [
        | inl (c, (d, out)) ↦ ap (λ (o : Response WebhookReceiveResult × Session). o.1) out
        | inr (payload, parsed, out) ↦
            rw out (checked_unchanged persist _ payload headers key code detail now s (rw out at h))
      ]

  -- A dry run, whatever the delivery, changes nothing.
  pub receive-dry_run :
      (body : Bytes) (headers : Headers) (key : ℕ) (now : Instant) (s : Session)
      → (receive loads verifier encodings settings db integrity_error false body headers key now
          s).1
        ≡ s
  receive-dry_run body headers key now s = elim (receive_cases false body headers key now s) [
    | inl (c, (d, out)) ↦ ap (λ (o : Response WebhookReceiveResult × Session). o.1) out
    | inr (payload, parsed, out) ↦ rw out (checked_dry_run _ payload headers key now s)
  ]
