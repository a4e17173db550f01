-- ===== src/Lifecycle/Texts.antt =====
-- app/services/intake_lifecycle.py: the texts of reasons and actors. The regular expressions of the
-- module and SHA-256 run in the standard library: what they do with a text is the record `Patterns`.
use procore_intake_bridge.Text.{
  join_words, text_length, drop_characters, append, first_characters, strip_start, strip_end,
}
use procore_intake_bridge.Base.{
  ◌-◌, String, Bool, ◌||◌, Option, none, some, if◌then◌else◌, str_eq, ltb,
}

-- `URL.sub`, `PRIVATE_PATH.sub` and `SECRET.sub` with the replacements of the source, `search` of the
-- four expressions, `json.dumps` of the values of a response, and `hashlib.sha256(…).hexdigest()`.
pub record Patterns : Type 1 where
  pub redact_urls : String → String
  pub redact_private_paths : String → String
  pub redact_secrets : String → String
  pub search_forbidden : String → Bool
  pub search_url : String → Bool
  pub search_private_path : String → Bool
  pub search_secret : String → Bool
  pub sha256_hexdigest : String → String
  pub dumps : (A : Type 0) → A → String

module _ (patterns : Patterns) where
  open patterns use {
    redact_urls, redact_private_paths, redact_secrets, search_url, search_private_path,
    search_secret, sha256_hexdigest, dumps,
  }

  unfoldable pub sanitize_lifecycle_value : String → String
  unfolding strip_start strip_end join_words
  sanitize_lifecycle_value value = strip_start (
      join_words
        (redact_secrets (redact_private_paths (redact_urls (strip_end (strip_start value))))))

  unfoldable pub mask_lifecycle_actor : String → Option String
  unfolding text_length drop_characters append
  mask_lifecycle_actor value =
      let text = sanitize_lifecycle_value value in
      if str_eq text ""
      then none
      else if ltb 4 (text_length text)
      then some (append "local-actor-••••" (drop_characters (text_length text - 4) text))
      else some "local-actor-••••"

  unfoldable pub hash_lifecycle_actor : Option String → Option String
  hash_lifecycle_actor none = none
  hash_lifecycle_actor (some value) =
      let text = sanitize_lifecycle_value value in
      if str_eq text "" then none else some (first_characters 12 (sha256_hexdigest text))

  -- `validate_lifecycle_response_safe` raises. The keys of a response are the names of its fields, of
  -- which none is a forbidden one, so that the searches in its text decide.
  unfoldable pub is_unsafe_response : (A : Type 0) → A → Bool
  is_unsafe_response A response =
      let text = dumps A response in
      search_url text || search_private_path text || search_secret text
