-- ===== src/Triage/Signals.antt =====
-- app/services/operator_triage_queue.py: the signals of a record, their score and their buckets.
use procore_intake_bridge.Base.{
  ℕ, ◌+◌, ◌*◌, String, Bool, true, false, ◌&&◌, ◌||◌, Option, none, some, List, [], ◌∷◌, ◌++◌, ltb,
  leb, if◌then◌else◌, str_eq,
}
use procore_intake_bridge.Base.Int.{ℤ, pos, negsuc, ◌+ℤ◌}
use procore_intake_bridge.Models.{Instant, IntakeReviewState}
use procore_intake_bridge.Models.Settings.{Settings}
use procore_intake_bridge.Lifecycle.Vocabulary.{
  Status, new, in_review, reviewed, needs_follow_up, ignored, normalize_lifecycle_status,
}
use procore_intake_bridge.Triage.Vocabulary.{
  Bucket, bucket_needs_follow_up, new_unreviewed, bucket_in_review, older_unreviewed,
  recently_received, has_attachments, missing_source_context, unknown_tool, bucket_reviewed,
  bucket_ignored, Tool, tool_unknown, same_tool,
}
use procore_intake_bridge.Triage.Context.{AttachmentSummary, SourceContext, has_text}

pub record Signal : Type 0 where
  pub code : String
  pub label : String
  pub weight : ℤ

abbrev pub signal : String → String → ℤ → Signal
signal code label weight = record { code = code; label = label; weight = weight }

-- `timedelta(hours=n)`.
abbrev pub hours : ℕ → ℕ
hours n = n * 3_600_000_000

unfoldable pub lifecycle_signal : Status → Signal
lifecycle_signal needs_follow_up =
    signal "lifecycle_needs_follow_up" "Needs local follow-up" (pos 50)
lifecycle_signal new = signal "lifecycle_new" "New local record" (pos 30)
lifecycle_signal in_review = signal "lifecycle_in_review" "Local review in progress" (pos 20)
lifecycle_signal reviewed = signal "lifecycle_reviewed" "Locally reviewed" (negsuc 19)
lifecycle_signal ignored = signal "lifecycle_ignored" "Locally ignored" (negsuc 29)

abbrev pub is_unreviewed : Status → Bool
is_unreviewed new = true
is_unreviewed in_review = true
is_unreviewed needs_follow_up = true
is_unreviewed _ = false

-- The status of a record's state, `NEW` where it has none.
abbrev pub state_status : Option IntakeReviewState → Status
state_status none = new
state_status (some state) = (normalize_lifecycle_status state.status).0

abbrev pub has_manifest : Option AttachmentSummary → Bool
has_manifest none = false
has_manifest (some summary) = ltb 0 summary.manifest_count

abbrev pub has_context : Option SourceContext → Bool
has_context none = false
has_context (some source) = has_text source.item_id_hash || has_text source.project_id_hash

abbrev pub is_recent : Option Instant → ℕ → Instant → Bool
is_recent none n now = false
is_recent (some received) n now = leb now (received + hours n)

abbrev pub is_older : Option Instant → ℕ → Instant → Bool
is_older none n now = false
is_older (some received) n now = ltb (received + hours n) now

abbrev pub if_signal : Bool → Signal → List Signal
if_signal true s = s ∷ []
if_signal false s = []

abbrev pub manifest_signal : Bool → Signal
manifest_signal true = signal "has_attachment_manifest" "Attachment manifest available" (pos 5)
manifest_signal false = signal "missing_attachment_manifest" "Attachment manifest missing" (pos 10)

abbrev pub context_signal : Bool → Signal
context_signal true = signal "source_context_available" "Source context available" (pos 0)
context_signal false = signal "source_context_missing" "Source context missing" (pos 15)

-- The signals after that of the status.
unfoldable pub other_signals :
    Option Instant
    → Tool
    → Bool
    → Option AttachmentSummary
    → Option SourceContext
    → Settings
    → Instant
    → List Signal
other_signals received tool unreviewed attachments source settings now =
    if_signal (is_recent received settings.triage_queue_recent_hours now)
      (signal "recently_received" "Recently received" (pos 10))
    ++ (if_signal (unreviewed && is_older received settings.triage_queue_older_than_hours now)
          (signal "older_unreviewed" "Older unreviewed record" (pos 25))
        ++ (if_signal settings.triage_queue_include_attachment_signals
              (manifest_signal (has_manifest attachments))
            ++ (if_signal settings.triage_queue_include_source_context_signals
                  (context_signal (has_context source))
                ++ (if_signal (same_tool tool tool_unknown)
                      (signal "unknown_tool" "Unknown local source type" (pos 20))
                    ++ (signal "demo_placeholder_triage" "Deterministic local triage" (pos 0)
                        ∷ [])))))

-- `received` and `tool` are those of the record.
unfoldable pub compute_triage_signals :
    Option Instant
    → Tool
    → Option IntakeReviewState
    → Option AttachmentSummary
    → Option SourceContext
    → Settings
    → Instant
    → List Signal
unfolding lifecycle_signal other_signals
compute_triage_signals received tool state attachments source settings now =
    let status = state_status state in
    if_signal settings.triage_queue_include_lifecycle (lifecycle_signal status)
    ++ other_signals received tool (is_unreviewed status) attachments source settings now

unfoldable pub compute_triage_priority_score : List Signal → ℤ
compute_triage_priority_score [] = pos 0
compute_triage_priority_score (s ∷ signals) = s.weight +ℤ compute_triage_priority_score signals

-- `code in codes`.
unfoldable pub has_code : String → List Signal → Bool
has_code code [] = false
has_code code (s ∷ signals) = str_eq s.code code || has_code code signals

-- The `mapping` of codes to buckets, in its order.
abbrev pub bucket_codes : List (String × Bucket)
bucket_codes =
    ("lifecycle_needs_follow_up", bucket_needs_follow_up)
    ∷ ("lifecycle_new", new_unreviewed)
    ∷ ("lifecycle_in_review", bucket_in_review)
    ∷ ("older_unreviewed", older_unreviewed)
    ∷ ("recently_received", recently_received)
    ∷ ("has_attachment_manifest", has_attachments)
    ∷ ("source_context_missing", missing_source_context)
    ∷ ("unknown_tool", unknown_tool)
    ∷ ("lifecycle_reviewed", bucket_reviewed)
    ∷ ("lifecycle_ignored", bucket_ignored)
    ∷ []

unfoldable pub buckets_among : List Signal → List (String × Bucket) → List Bucket
unfolding has_code
buckets_among signals [] = []
buckets_among signals ((code, bucket) ∷ mapping) =
    let rest = buckets_among signals mapping in
    if has_code code signals then bucket ∷ rest else rest

unfoldable pub assign_triage_buckets : List Signal → List Bucket
unfolding buckets_among
assign_triage_buckets signals = buckets_among signals bucket_codes
