-- ===== src/Webhook/Redaction.antt =====
-- What sanitize_payload of app/services/webhook_normalizer.py redacts.
use procore_intake_bridge.Base.{
  ◌≡◌, refl, ap, Bool, true, false, ◌||◌, not, str_eq, arith, Bool-cases, inl, inr, if◌then◌else◌,
  eq_iff,
}
use procore_intake_bridge.Json.{
  Json, Items, Fields, null, bool, number, string, array, object, nil, cons, end, field,
}
use procore_intake_bridge.Webhook.Payload.{
  is_sensitive, sanitize_payload, sanitize_items, sanitize_fields,
}

abbrev pub is_redaction : Json → Bool
is_redaction (string s) = str_eq s "[REDACTED]"
is_redaction _ = false

-- Whether a value has, at any depth, a field of a sensitive key whose value is not the redaction.
unfoldable mutual
  pub leaks : Json → Bool
  leaks (array items) = items_leak items
  leaks (object fields) = fields_leak fields
  leaks _ = false

  pub items_leak : Items → Bool
  items_leak nil = false
  items_leak (cons item items) = leaks item || items_leak items

  pub fields_leak : Fields → Bool
  fields_leak end = false
  fields_leak (field key item fields) =
      (if is_sensitive key then not (is_redaction item) else leaks item) || fields_leak fields

mutual
  unfolding sanitize_payload leaks

  sanitize-leaks : (value : Json) → leaks (sanitize_payload value) ≡ false
  sanitize-leaks null = refl
  sanitize-leaks (bool b) = refl
  sanitize-leaks (number zero text) = refl
  sanitize-leaks (string s) = refl
  sanitize-leaks (array items) = sanitize_items-leak items
  sanitize-leaks (object fields) = sanitize_fields-leak fields

  sanitize_items-leak : (items : Items) → items_leak (sanitize_items items) ≡ false
  sanitize_items-leak nil = refl
  sanitize_items-leak (cons item items) =
      ground (arith, sanitize-leaks item, sanitize_items-leak items)

  sanitize_fields-leak : (fields : Fields) → fields_leak (sanitize_fields fields) ≡ false
  sanitize_fields-leak end = refl
  sanitize_fields-leak (field key item fields) = elim (Bool-cases (is_sensitive key)) [
    | inl sensitive ↦ rw sensitive (sanitize_fields-leak fields)
    | inr harmless ↦ rw (harmless, sanitize-leaks item) (sanitize_fields-leak fields)
  ]

or-left : (a b : Bool) → (a || b) ≡ false → a ≡ false
or-left false b h = refl
or-left true b h = cc

or-right : (a b : Bool) → (a || b) ≡ false → b ≡ false
or-right false b h = h
or-right true b h = cc

not-false : (a : Bool) → not a ≡ false → a ≡ true
not-false true h = refl
not-false false h = cc

is_redaction_lem : (item : Json) → is_redaction item ≡ true → item ≡ string "[REDACTED]"
is_redaction_lem null h = cc
is_redaction_lem (bool b) h = cc
is_redaction_lem (number zero text) h = cc
is_redaction_lem (string s) h = ap string ((eq_iff s "[REDACTED]").0 h)
is_redaction_lem (array items) h = cc
is_redaction_lem (object fields) h = cc

mutual
  unfolding sanitize_payload leaks

  sanitize_clean : (value : Json) → leaks value ≡ false → sanitize_payload value ≡ value
  sanitize_clean null h = refl
  sanitize_clean (bool b) h = refl
  sanitize_clean (number zero text) h = refl
  sanitize_clean (string s) h = refl
  sanitize_clean (array items) h = ap array (sanitize_items_clean items h)
  sanitize_clean (object fields) h = ap object (sanitize_fields_clean fields h)

  sanitize_items_clean : (items : Items) → items_leak items ≡ false → sanitize_items items ≡ items
  sanitize_items_clean nil h = refl
  sanitize_items_clean (cons item items) h = rw (
    sanitize_clean item (or-left (leaks item) (items_leak items) h),
    sanitize_items_clean items (or-right (leaks item) (items_leak items) h),
  )

  sanitize_fields_clean :
      (fields : Fields) → fields_leak fields ≡ false → sanitize_fields fields ≡ fields
  sanitize_fields_clean end h = refl
  sanitize_fields_clean (field key item fields) h =
      let own = or-left _ (fields_leak fields) h in
      let rest = sanitize_fields_clean fields (or-right _ (fields_leak fields) h) in
      elim (Bool-cases (is_sensitive key)) [
        | inl sensitive ↦
            rw (sensitive, rest, is_redaction_lem item (not-false _ (rw sensitive at own)))
        | inr harmless ↦ rw (harmless, rest, sanitize_clean item (rw harmless at own))
      ]

-- A sanitized payload has no field of a sensitive key, at any depth, whose value is not the redaction;
-- a payload that has none is left as it is; and to sanitize twice is to sanitize once.
pub sanitize_payload_lem :
    (value : Json)
    → (leaks (sanitize_payload value) ≡ false)
      × (leaks value ≡ false → sanitize_payload value ≡ value)
      × (sanitize_payload (sanitize_payload value) ≡ sanitize_payload value)
sanitize_payload_lem value = (
  sanitize-leaks value,
  sanitize_clean value,
  sanitize_clean (sanitize_payload value) (sanitize-leaks value),
)
