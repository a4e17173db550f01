-- ===== src/Webhook/Signature.antt =====
-- app/security/webhook_signature.py. `Bytes` are the bytes of a body; HMAC and the resolution of secrets
-- (a `SecretProvider`, chosen by the deployment) are parameters.
use Prim.Native.Char.{code}
use procore_intake_bridge.Models.Settings.{Settings}
use procore_intake_bridge.Webhook.Normalizer.{Headers}
use procore_intake_bridge.Base.{
  String, Bool, true, ◌&&◌, not, Option, none, some, [], ◌∷◌, leb, if◌then◌else◌, str_eq,
}
use procore_intake_bridge.Text.{strip, same_folded, starts_folded, drop_characters}

pub data SignatureStatus : Type 0 where
  skipped not_configured valid : SignatureStatus

-- The `status` texts of a result.
abbrev pub signature_status_text : SignatureStatus → String
signature_status_text SignatureStatus.skipped = "skipped"
signature_status_text not_configured = "not_configured"
signature_status_text valid = "valid"

-- A `WebhookSignatureResult`, whose `verified` is that of its status, or the exception that is raised.
pub data SignatureCheck : Type 0 where
  checked : SignatureStatus → SignatureCheck
  refused : String → SignatureCheck
  type_error : SignatureCheck

pub record Verifier (Bytes : Type 0) : Type 0 where
  -- `secret_provider.get_secret`, none for a `SecretProviderError`.
  pub get_secret : String → Option String
  -- `hmac.new(secret.encode(), payload, hashlib.sha256).hexdigest()`.
  pub hmac_hexdigest : String → Bytes → String

-- `_get_header`, and `request.headers.get`: the first header of the name, case aside.
unfoldable pub get_header : String → Headers → Option String
unfolding same_folded
get_header name [] = none
get_header name ((key, value) ∷ headers) =
    let rest = get_header name headers in if same_folded key name then some value else rest

unfoldable pub is_ascii : String → Bool
is_ascii String.[] = true
is_ascii (String.◌∷◌ c s) = leb (code c) 127 && is_ascii s

-- The signature of a header without its blanks and without `sha256=`.
unfoldable pub supplied_signature : String → String
unfolding strip starts_folded drop_characters
supplied_signature signature =
    let supplied = strip signature in
    if starts_folded "sha256=" supplied then drop_characters 7 supplied else supplied

-- `hmac.compare_digest` of two texts raises `TypeError` where one is not ASCII, as a digest always is.
unfoldable pub compare_digest : String → String → SignatureCheck
compare_digest expected supplied =
    if not (is_ascii supplied)
    then type_error
    else if str_eq expected supplied
    then checked valid
    else refused "Webhook signature is invalid."

module _ {Bytes : Type 0} (verifier : Verifier Bytes) (settings : Settings) where
  unfoldable pub verify_with : Bytes → String → SignatureCheck
  unfolding supplied_signature compare_digest
  verify_with body signature = elim (verifier.get_secret settings.webhook_secret_name) [
    | none ↦ refused "Required webhook signature secret could not be resolved."
    | some secret ↦
        compare_digest (verifier.hmac_hexdigest secret body) (supplied_signature signature)
  ]

  unfoldable pub verify_webhook_signature : Bytes → Headers → SignatureCheck
  unfolding get_header
  verify_webhook_signature body headers =
      if not settings.require_webhook_signature
      then checked (
          if str_eq settings.webhook_secret_name ""
          then not_configured
          else SignatureStatus.skipped)
      else if str_eq (strip settings.webhook_secret_name) ""
      then refused "Webhook signatures are required but no secret reference is configured."
      else elim (get_header settings.webhook_signature_header headers) [
        | none ↦ refused "Required webhook signature header is missing."
        | some signature ↦
            if str_eq signature ""
            then refused "Required webhook signature header is missing."
            else verify_with body signature
      ]
