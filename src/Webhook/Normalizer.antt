-- ===== src/Webhook/Normalizer.antt =====
-- app/services/webhook_normalizer.py: the fields of an event, found in a payload and its headers. `str` of
-- a list or a dict, `json.dumps` with sorted keys and SHA-256 are the record `Encodings`.
use Prim.Native.Char.{code}
use procore_intake_bridge.Base.{
  ◌≡◌, String, Bool, true, false, ◌&&◌, ◌||◌, not, Option, none, some, List, [], ◌∷◌, ◌==◌,
  if◌then◌else◌, str_eq,
}
use procore_intake_bridge.Json.{
  Json, Items, Fields, null, bool, number, string, array, object, nil, cons, end, field,
}
use procore_intake_bridge.Models.{ResourceType, rfi, submittal, unknown}
use procore_intake_bridge.Polling.Run.{or_text}
use procore_intake_bridge.Webhook.Payload.{
  sanitize_payload, or_else_search, find_recursive, all_keys, get, first_of, nested,
}
use procore_intake_bridge.Text.{
  append, strip, first_characters, fold_code, folds_to, same_folded, contains_folded, text_length,
}

abbrev pub Headers : Type 0
Headers = List (String × String)

pub record Encodings : Type 0 where
  pub repr : Json → String
  pub canonical_dumps : Json → String
  pub sha256_hexdigest : String → String
  pub length-sha256_hexdigest : (text : String) → text_length (sha256_hexdigest text) ≡ 64

pub record NormalizedEvent : Type 0 where
  pub event_id : String
  pub event_type : String
  pub resource_type : ResourceType
  pub action : String
  pub procore_company_id : Option String
  pub procore_project_id : Option String
  pub procore_item_id : Option String

unfoldable pub is_truthy : Json → Bool
is_truthy null = false
is_truthy (bool b) = b
is_truthy (number zero text) = not zero
is_truthy (string s) = not (str_eq s "")
is_truthy (array nil) = false
is_truthy (array (cons item items)) = true
is_truthy (object end) = false
is_truthy (object (field key item fields)) = true

-- `a or b`.
abbrev pub or_value : Json → Json → Json
or_value a b = if is_truthy a then a else b

-- `_find_recursive_container_id`: the id of the first object under the container's name.
unfoldable pub container_hit : String → Fields → Json
container_hit container end = null
container_hit container (field key (object inner) fields) =
    let rest = container_hit container fields in
    if same_folded key container then or_else_search (get "id" inner) rest else rest
container_hit container (field key item fields) = container_hit container fields

unfoldable mutual
  pub find_recursive_container_id : String → Json → Json
  find_recursive_container_id container (object fields) =
      or_else_search (container_hit container fields) (container_id_in_fields container fields)
  find_recursive_container_id container (array items) = container_id_in_items container items
  find_recursive_container_id container _ = null

  pub container_id_in_items : String → Items → Json
  container_id_in_items container nil = null
  container_id_in_items container (cons item items) =
      or_else_search (find_recursive_container_id container item)
        (container_id_in_items container items)

  pub container_id_in_fields : String → Fields → Json
  container_id_in_fields container end = null
  container_id_in_fields container (field key item fields) =
      or_else_search (find_recursive_container_id container item)
        (container_id_in_fields container fields)

-- The first key that is found at any depth.
unfoldable pub find_first : List String → Json → Json
unfolding find_recursive
find_first [] payload = null
find_first (key ∷ keys) payload =
    or_else_search (find_recursive key payload) (find_first keys payload)

unfoldable pub find_id : List String → String → Fields → Json
unfolding find_first find_recursive_container_id
find_id keys container payload =
    or_else_search (find_first keys (object payload))
      (find_recursive_container_id container (object payload))

unfoldable pub has_key : String → List String → Bool
unfolding folds_to
has_key target [] = false
has_key target (key ∷ keys) = folds_to key target || has_key target keys

-- `key.casefold().replace("_", "-")` and its `endswith`, for a suffix of lower case.
unfoldable pub dashed_is : String → String → Bool
dashed_is String.[] String.[] = true
dashed_is (String.◌∷◌ c s) (String.◌∷◌ d t) =
    (if code c == b'_' then b'-' else fold_code (code c)) == code d && dashed_is s t
dashed_is _ _ = false

unfoldable pub dashed_ends : String → String → Bool
unfolding dashed_is
dashed_ends String.[] suffix = dashed_is String.[] suffix
dashed_ends (String.◌∷◌ c s) suffix = dashed_is (String.◌∷◌ c s) suffix || dashed_ends s suffix

-- The first header of an event id that is not blank.
unfoldable pub header_event_id : Headers → Option String
unfolding dashed_ends strip
header_event_id [] = none
header_event_id ((key, value) ∷ headers) =
    let rest = header_event_id headers in
    if dashed_ends key "event-id" && not (str_eq (strip value) "")
    then some (first_characters 128 (strip value))
    else rest

unfoldable pub event_type_value : Fields → Json
event_type_value payload = first_of ("event_type" ∷ "eventType" ∷ "type" ∷ []) payload

-- The value that the body gives the event's id.
unfoldable pub body_event_id : Fields → Json
unfolding event_type_value is_truthy
body_event_id payload =
    let value =
      or_value (first_of ("event_id" ∷ "eventId" ∷ "delivery_id" ∷ "deliveryId" ∷ []) payload)
        (nested "event" "id" payload) in
    elim value [
      | null ↦ if is_truthy (event_type_value payload) then get "id" payload else null
      | other ↦ other
    ]

module _ (encodings : Encodings) where
  open encodings use {repr, canonical_dumps, sha256_hexdigest}

  -- `str(value)`.
  unfoldable pub str_of : Json → String
  str_of null = "None"
  str_of (bool true) = "True"
  str_of (bool false) = "False"
  str_of (number zero text) = text
  str_of (string s) = s
  str_of (array items) = repr (array items)
  str_of (object fields) = repr (object fields)

  unfoldable pub string_or_none : Json → Option String
  unfolding str_of
  string_or_none null = none
  string_or_none value = some (str_of value)

  -- `" ".join(str(value) for value in candidates if value)`; its case is folded where it is searched.
  unfoldable pub candidate_text : List Json → String
  unfolding is_truthy str_of append
  candidate_text [] = ""
  candidate_text (value ∷ values) =
      let rest = candidate_text values in
      if is_truthy value
      then (if str_eq rest "" then str_of value else append (str_of value) (append " " rest))
      else rest

  unfoldable pub infer_resource_type : Fields → ResourceType
  unfolding candidate_text event_type_value has_key
  infer_resource_type payload =
      let text = candidate_text (
        first_of ("resource_type" ∷ "resourceType" ∷ []) payload
        ∷ nested "resource" "type" payload
        ∷ event_type_value payload
        ∷ nested "event" "name" payload
        ∷ []) in
      let keys = all_keys (object payload) in
      if contains_folded "rfi" text || has_key "rfi_id" keys || has_key "rfiid" keys
      then rfi
      else if contains_folded "submittal" text
          || has_key "submittal_id" keys
          || has_key "submittalid" keys
      then submittal
      else unknown

  -- The action in a text, or the action without its last letter.
  unfoldable pub action_in : String → String
  action_in text =
      if contains_folded "created" text || contains_folded "create" text
      then "created"
      else if contains_folded "updated" text || contains_folded "update" text
      then "updated"
      else if contains_folded "deleted" text || contains_folded "delete" text
      then "deleted"
      else "unknown"

  unfoldable pub infer_action : Fields → String
  unfolding candidate_text event_type_value action_in
  infer_action payload = action_in (
      candidate_text (
        first_of ("action" ∷ []) payload
        ∷ nested "payload" "action" payload
        ∷ event_type_value payload
        ∷ nested "event" "name" payload
        ∷ []))

  unfoldable pub infer_project_id : Fields → Option String
  infer_project_id payload =
      string_or_none (find_id ("project_id" ∷ "projectId" ∷ []) "project" payload)

  unfoldable pub infer_item_id : Fields → Option String
  infer_item_id payload = string_or_none (
      or_else_search (nested "resource" "id" payload) (
        find_first ("rfi_id" ∷ "rfiId" ∷ "submittal_id" ∷ "submittalId" ∷ "resource_id" ∷ [])
          (object payload)))

  abbrev pub cut_id : Json → Option String
  cut_id null = none
  cut_id value = some (first_characters 128 (str_of value))

  unfoldable pub extract_event_id : Fields → Headers → Option String
  extract_event_id payload headers = elim (header_event_id headers) [
    | some value ↦ some value
    | none ↦ cut_id (body_event_id payload)
  ]

  unfoldable pub build_event_fingerprint : Fields → String
  unfolding append
  build_event_fingerprint payload =
      append "fp-" (sha256_hexdigest (canonical_dumps (sanitize_payload (object payload))))

  unfoldable pub normalized_event_id : Fields → Headers → String
  normalized_event_id payload headers =
      or_text (extract_event_id payload headers) (build_event_fingerprint payload)

  unfoldable pub normalized_event_type : Fields → String
  normalized_event_type payload = first_characters 200 (
      str_of (
        or_value (or_value (event_type_value payload) (nested "event" "name" payload))
          (string "unknown")))

  unfoldable pub normalize_procore_webhook_event : Fields → Headers → NormalizedEvent
  normalize_procore_webhook_event payload headers = record {
    event_id = normalized_event_id payload headers;
    event_type = normalized_event_type payload;
    resource_type = infer_resource_type payload;
    action = infer_action payload;
    procore_company_id =
        string_or_none (find_id ("company_id" ∷ "companyId" ∷ []) "company" payload);
    procore_project_id = infer_project_id payload;
    procore_item_id = infer_item_id payload;
  }
