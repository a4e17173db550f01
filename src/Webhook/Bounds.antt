-- ===== src/Webhook/Bounds.antt =====
-- The texts of a normalized event and the widths of their columns (app/models/webhook_events.py).
use procore_intake_bridge.Polling.Run.{or_text}
use mathlib.Core.Option.{some-injective}
use procore_intake_bridge.Base.{
  ℕ, zero, suc, ◌+◌, ◌≤◌, ◌≡◌, ◌∙◌, refl, ap, subst, String, false, Option, none, some, ◌∷◌, [],
  arith, str_eq, Bool-cases, inl, inr, eq_iff,
}
use procore_intake_bridge.Json.{Json, Fields, null}
use procore_intake_bridge.Text.{first_characters, text_length, append, strip}
use procore_intake_bridge.Webhook.Normalizer.{
  Encodings, Headers, header_event_id, extract_event_id, build_event_fingerprint,
  normalized_event_id, normalized_event_type, normalize_procore_webhook_event, cut_id,
  body_event_id, str_of,
}

text_length-first_characters : (n : ℕ) (s : String) → text_length (first_characters n s) ≤ n
unfolding text_length first_characters
text_length-first_characters zero s = omega arith
text_length-first_characters (suc n) String.[] = omega arith
text_length-first_characters (suc n) (String.◌∷◌ c s) =
    omega (arith, text_length-first_characters n s)

text_length-append : (s t : String) → text_length (append s t) ≡ text_length s + text_length t
unfolding text_length append
text_length-append String.[] t = omega arith
text_length-append (String.◌∷◌ c s) t = omega (arith, text_length-append s t)

-- A text that is kept where it is not empty, and otherwise a default.
or_text_bounds :
    (bound : ℕ) (value : Option String) (default : String)
    → ((text : String) → value ≡ some text → text_length text ≤ bound)
    → text_length default ≤ bound
    → str_eq default "" ≡ false
    → (text_length (or_text value default) ≤ bound) × (str_eq (or_text value default) "" ≡ false)
or_text_bounds bound none default h k e = (k, e)
or_text_bounds bound (some text) default h k e = elim (Bool-cases (str_eq text "")) [
  | inl blank ↦ rw blank (k, e)
  | inr kept ↦ rw kept (h text refl, kept)
]

header_event_id_bounds :
    (headers : Headers) (text : String)
    → header_event_id headers ≡ some text
    → text_length text ≤ 128
unfolding header_event_id
header_event_id_bounds [] text h = cc
header_event_id_bounds ((key, value) ∷ headers) text h =
    ground (
      arith,
      h,
      header_event_id_bounds headers text,
      text_length-first_characters 128 (strip value),
    )

module _ (encodings : Encodings) where
  open encodings use {sha256_hexdigest, length-sha256_hexdigest}

  cut_id_bounds :
      (value : Json) (text : String) → cut_id encodings value ≡ some text → text_length text ≤ 128
  cut_id_bounds null text h = cc
  cut_id_bounds value text h =
      subst (λ t. text_length t ≤ 128) (some-injective _ _ h)
        (text_length-first_characters 128 (str_of encodings value))

  extract_event_id_bounds :
      (payload : Fields) (headers : Headers) (text : String)
      → extract_event_id encodings payload headers ≡ some text
      → text_length text ≤ 128
  unfolding extract_event_id
  extract_event_id_bounds payload headers text h =
      ground
        (arith, h, header_event_id_bounds headers text, cut_id_bounds (body_event_id payload) text)

  fingerprint_length :
      (payload : Fields) → text_length (build_event_fingerprint encodings payload) ≡ 67
  unfolding build_event_fingerprint text_length
  fingerprint_length payload =
      text_length-append "fp-" _ ∙ ap (λ n. 3 + n) (length-sha256_hexdigest _)

  fingerprint-ne-empty :
      (payload : Fields) → str_eq (build_event_fingerprint encodings payload) "" ≡ false
  unfolding text_length
  fingerprint-ne-empty payload =
      elim (Bool-cases (str_eq (build_event_fingerprint encodings payload) "")) [
        | inl blank ↦ absurd (
            omega (
              arith,
              ap text_length ((eq_iff (build_event_fingerprint encodings payload) "").0 blank),
              fingerprint_length payload,
            ))
        | inr kept ↦ kept
      ]

  -- Whatever a delivery holds, its event id is not empty and fits in the column of 128 characters, and
  -- its event type fits in the column of 200.
  pub normalize_bounds :
      (payload : Fields) (headers : Headers)
      → let normalized = normalize_procore_webhook_event encodings payload headers in
        (text_length normalized.event_id ≤ 128)
        × (str_eq normalized.event_id "" ≡ false)
        × (text_length normalized.event_type ≤ 200)
  unfolding normalize_procore_webhook_event normalized_event_id normalized_event_type
  normalize_bounds payload headers =
      let (fits, kept) =
        or_text_bounds 128 (extract_event_id encodings payload headers)
          (build_event_fingerprint encodings payload) (extract_event_id_bounds payload headers)
          (omega (arith, fingerprint_length payload)) (fingerprint-ne-empty payload) in
      (fits, kept, text_length-first_characters 200 _)
