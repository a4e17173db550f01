-- ===== src/Webhook/Signed.antt =====
-- What app/security/webhook_signature.py has checked of a delivery that it lets through.
use procore_intake_bridge.Webhook.Normalizer.{Headers}
use procore_intake_bridge.Models.Settings.{Settings}
use procore_intake_bridge.Webhook.Signature.{
  Verifier, compare_digest, verify_with, verify_webhook_signature, SignatureStatus, get_header,
  checked, supplied_signature, is_ascii,
}
use procore_intake_bridge.Base.{
  ◌≡◌, true, arith, some, Option-cases, Bool-cases, inl, inr, String, str_eq, eq_iff,
}

-- What a signature is checked for: the secret of the configured name, the header of the configured
-- name, and the digest of the body under the secret, which is the signature supplied.
pub record IsSigned {Bytes : Type 0} (verifier : Verifier Bytes) (settings : Settings)
    (body : Bytes) (headers : Headers) : Type 0 where
  pub secret : String
  pub signature : String
  pub resolved : verifier.get_secret settings.webhook_secret_name ≡ some secret
  pub sent : get_header settings.webhook_signature_header headers ≡ some signature
  pub matches : verifier.hmac_hexdigest secret body ≡ supplied_signature signature

module _ {Bytes : Type 0} (verifier : Verifier Bytes) (settings : Settings) where
  compare-valid :
      (expected supplied : String) (status : SignatureStatus)
      → compare_digest expected supplied ≡ checked status
      → expected ≡ supplied
  unfolding compare_digest
  compare-valid expected supplied status h = elim (Bool-cases (is_ascii supplied)) [
    | inr wide ↦ ground (arith, h, wide)
    | inl ascii ↦ elim (Bool-cases (str_eq expected supplied)) [
      | inl same ↦ (eq_iff expected supplied).0 same
      | inr differs ↦ ground (arith, h, ascii, differs)
    ]
  ]

  verify_with-IsSigned :
      (body : Bytes) (headers : Headers) (signature : String) (status : SignatureStatus)
      → get_header settings.webhook_signature_header headers ≡ some signature
      → verify_with verifier settings body signature ≡ checked status
      → IsSigned verifier settings body headers
  unfolding verify_with
  verify_with-IsSigned body headers signature status sent h =
      elim (Option-cases (verifier.get_secret settings.webhook_secret_name)) [
        | inl missing ↦ ground (arith, h, missing)
        | inr (secret, resolved) ↦ record {
          secret = secret;
          signature = signature;
          resolved = resolved;
          sent = sent;
          matches =
              compare-valid (verifier.hmac_hexdigest secret body) (supplied_signature signature)
                status (ground (arith, h, resolved));
        }
      ]

  -- A required signature that is checked is that of the body.
  pub verify-IsSigned :
      (body : Bytes) (headers : Headers) (status : SignatureStatus)
      → settings.require_webhook_signature ≡ true
      → verify_webhook_signature verifier settings body headers ≡ checked status
      → IsSigned verifier settings body headers
  unfolding verify_webhook_signature
  verify-IsSigned body headers status required h =
      elim (Option-cases (get_header settings.webhook_signature_header headers)) [
        | inl missing ↦ ground (arith, h, missing, required)
        | inr (signature, sent) ↦
            verify_with-IsSigned body headers signature status sent
              (ground (arith, h, required, sent))
      ]
