-- ===== src/Webhook/Payload.antt =====
-- app/services/webhook_normalizer.py: sanitize_payload and the searches in a payload. `None` is the JSON
-- null, and `casefold` is that of ASCII.
use procore_intake_bridge.Text.{contains_folded, same_folded}
use procore_intake_bridge.Base.{
  String, Bool, ◌||◌, Option, none, some, if◌then◌else◌, str_eq, List, [], ◌∷◌, ◌++◌,
}
use procore_intake_bridge.Json.{
  Json, Items, Fields, null, bool, number, string, array, object, nil, cons, end, field,
}

-- Whether one of SENSITIVE_KEY_MARKERS is in a key.
unfoldable pub is_sensitive : String → Bool
unfolding contains_folded
is_sensitive key =
    contains_folded "authorization" key
    || contains_folded "signature" key
    || contains_folded "secret" key
    || contains_folded "token" key
    || contains_folded "password" key
    || contains_folded "credential" key
    || contains_folded "url" key

unfoldable mutual
  pub sanitize_payload : Json → Json
  sanitize_payload null = null
  sanitize_payload (bool b) = bool b
  sanitize_payload (number zero text) = number zero text
  sanitize_payload (string s) = string s
  sanitize_payload (array items) = array (sanitize_items items)
  sanitize_payload (object fields) = object (sanitize_fields fields)

  pub sanitize_items : Items → Items
  sanitize_items nil = nil
  sanitize_items (cons item items) = cons (sanitize_payload item) (sanitize_items items)

  pub sanitize_fields : Fields → Fields
  sanitize_fields end = end
  sanitize_fields (field key item fields) =
      let sanitized = sanitize_payload item in
      field key (if is_sensitive key then string "[REDACTED]" else sanitized)
        (sanitize_fields fields)

abbrev pub or_else_search : Json → Json → Json
or_else_search null rest = rest
or_else_search found rest = found

-- The value of the first key that is the target, case aside.
unfoldable pub find_key : String → Fields → Option Json
unfolding same_folded
find_key target end = none
find_key target (field key item fields) =
    let rest = find_key target fields in if same_folded key target then some item else rest

unfoldable mutual
  pub find_recursive : String → Json → Json
  find_recursive target (object fields) =
      let below = find_in_fields target fields in
      elim (find_key target fields) [ some item ↦ item | none ↦ below ]
  find_recursive target (array items) = find_in_items target items
  find_recursive target _ = null

  pub find_in_items : String → Items → Json
  find_in_items target nil = null
  find_in_items target (cons item items) =
      or_else_search (find_recursive target item) (find_in_items target items)

  pub find_in_fields : String → Fields → Json
  find_in_fields target end = null
  find_in_fields target (field key item fields) =
      or_else_search (find_recursive target item) (find_in_fields target fields)

unfoldable mutual
  pub all_keys : Json → List String
  all_keys (object fields) = keys_of_fields fields
  all_keys (array items) = keys_of_items items
  all_keys _ = []

  pub keys_of_items : Items → List String
  keys_of_items nil = []
  keys_of_items (cons item items) = all_keys item ++ keys_of_items items

  pub keys_of_fields : Fields → List String
  keys_of_fields end = []
  keys_of_fields (field key item fields) = key ∷ (all_keys item ++ keys_of_fields fields)

-- `payload.get(key)`.
unfoldable pub get : String → Fields → Json
get key end = null
get key (field k item fields) = let rest = get key fields in if str_eq k key then item else rest

-- `_first` over the keys that are asked for, and `_nested`.
unfoldable pub first_of : List String → Fields → Json
unfolding get
first_of [] payload = null
first_of (key ∷ keys) payload = or_else_search (get key payload) (first_of keys payload)

unfoldable pub nested : String → String → Fields → Json
unfolding get
nested container key payload = elim (get container payload) [
  | object fields ↦ get key fields
  | _ ↦ null
]
