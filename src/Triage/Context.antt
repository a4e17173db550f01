-- ===== src/Triage/Context.antt =====
-- app/services/intake_review_workspace.py: what the triage reads of it. `Patterns` are the regular
-- expressions and the SHA-256 of that file; its expressions are those of the lifecycle and the triage.
use Prim.Native.Char.{code}
use procore_intake_bridge.Base.{
  ℕ, ◌-◌, String, Bool, false, ◌&&◌, not, Option, none, some, ltb, ◌==◌, if◌then◌else◌, str_eq,
  select, count, length,
}
use procore_intake_bridge.Models.{AttachmentObject, IntakeRecord, WebhookEvent}
use procore_intake_bridge.Models.Settings.{Settings}
use procore_intake_bridge.Database.{Tables}
use procore_intake_bridge.Lifecycle.Texts.{Patterns}
use procore_intake_bridge.Text.{
  first_characters, drop_characters, text_length, append, strip, fold_code, folds_to,
}
use procore_intake_bridge.Triage.Vocabulary.{Tool, tool_rfi, tool_submittal, tool_unknown}

-- `bool(text)` of a text or `None`.
abbrev pub has_text : Option String → Bool
has_text none = false
has_text (some text) = not (str_eq text "")

-- `text.casefold().rstrip("s")`, the letters that are left not yet folded.
unfoldable pub strip_plural : String → String
strip_plural String.[] = String.[]
strip_plural (String.◌∷◌ c s) =
    let rest = strip_plural s in
    if fold_code (code c) == b's' && str_eq rest "" then String.[] else String.◌∷◌ c rest

unfoldable pub classify_intake_review_tool : String → Tool
unfolding strip_plural
classify_intake_review_tool source_type =
    let normalized = strip_plural source_type in
    if folds_to normalized "rfi"
    then tool_rfi
    else if folds_to normalized "submittal"
    then tool_submittal
    else tool_unknown

unfoldable pub mask_intake_review_identifier : String → Option String
mask_intake_review_identifier text =
    if str_eq (strip text) ""
    then none
    else some (
        if ltb 4 (text_length text)
        then append "••••" (drop_characters (text_length text - 4) text)
        else "••••")

-- The counts of an `IntakeReviewAttachmentSummary` that the rows of its query give.
pub record AttachmentSummary : Type 0 where
  pub manifest_count : ℕ
  pub checksum_count : ℕ
  pub source_url_hash_count : ℕ

-- The identifiers of an `IntakeReviewSourceContext` and its count of events.
pub record SourceContext : Type 0 where
  pub project_id_masked : Option String
  pub project_id_hash : Option String
  pub item_id_masked : Option String
  pub item_id_hash : Option String
  pub matching_event_count : ℕ

abbrev pub is_number : ℕ → Option ℕ → Bool
is_number n none = false
is_number n (some m) = m == n

abbrev pub is_text : String → Option String → Bool
is_text text none = false
is_text text (some other) = str_eq other text

unfoldable pub build_intake_review_attachment_summary :
    IntakeRecord → Settings → Tables → Option AttachmentSummary
build_intake_review_attachment_summary r settings t =
    let rows =
      select (λ (a : AttachmentObject). is_number r.id a.intake_record_id) t.attachment_objects in
    if not settings.intake_review_workspace_include_attachment_summary
    then none
    else some (record {
      manifest_count = length rows;
      checksum_count = count (λ (a : AttachmentObject). has_text a.checksum_sha256) rows;
      source_url_hash_count = count (λ (a : AttachmentObject). has_text a.source_url_hash) rows;
    })

-- `WebhookEvent` rows of the record's project and item.
abbrev pub matches_record : IntakeRecord → WebhookEvent → Bool
matches_record r event =
    is_text r.procore_project_id event.procore_project_id
    && is_text r.procore_item_id event.procore_item_id

module _ (patterns : Patterns) where
  open patterns use {redact_urls, redact_private_paths, redact_secrets, sha256_hexdigest}

  -- `sanitize_intake_review_value` of a text.
  unfoldable pub sanitize_intake_review_value : String → String
  sanitize_intake_review_value value =
      first_characters 500 (redact_secrets (redact_private_paths (redact_urls value)))

  unfoldable pub hash_intake_review_identifier : String → Option String
  hash_intake_review_identifier text =
      if str_eq (strip text) "" then none else some (first_characters 12 (sha256_hexdigest text))

  unfoldable pub build_intake_review_source_context :
      IntakeRecord → Settings → Tables → Option SourceContext
  build_intake_review_source_context r settings t =
      let masked : String → Option String = λ text.
        if settings.intake_review_workspace_mask_source_ids
        then mask_intake_review_identifier text
        else none in
      let hashed : String → Option String = λ text.
        if settings.intake_review_workspace_hash_source_ids
        then hash_intake_review_identifier text
        else none in
      if not settings.intake_review_workspace_include_source_context
      then none
      else some (record {
        project_id_masked = masked r.procore_project_id;
        project_id_hash = hashed r.procore_project_id;
        item_id_masked = masked r.procore_item_id;
        item_id_hash = hashed r.procore_item_id;
        matching_event_count = count (matches_record r) t.webhook_events;
      })
