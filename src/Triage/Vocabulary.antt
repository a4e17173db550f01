-- ===== src/Triage/Vocabulary.antt =====
-- app/schemas/operator_triage_queue.py: the enums of the queue with their texts.
use procore_intake_bridge.Base.{
  String, Bool, true, false, Option, none, some, if◌then◌else◌, str_eq,
}

pub data TriageStatus : Type 0 where
  available empty disabled needs_configuration : TriageStatus

pub data Sort : Type 0 where
  priority_desc priority_asc received_at_desc received_at_asc : Sort
  lifecycle_status_asc lifecycle_status_desc tool_asc tool_desc : Sort

-- `REVIEWED`, `IGNORED` and `IN_REVIEW` are spelled apart from the statuses of the review.
pub data Bucket : Type 0 where
  bucket_needs_follow_up new_unreviewed bucket_in_review older_unreviewed : Bucket
  recently_received has_attachments missing_source_context unknown_tool : Bucket
  bucket_reviewed bucket_ignored : Bucket

-- `IntakeReviewTool` of app/schemas/intake_review_workspace.py.
pub data Tool : Type 0 where
  tool_rfi tool_submittal tool_unknown : Tool

abbrev pub tool_value : Tool → String
tool_value tool_rfi = "rfi"
tool_value tool_submittal = "submittal"
tool_value tool_unknown = "unknown"

-- An enum's value of a text, none for a `ValueError`.
unfoldable pub sort_of : String → Option Sort
sort_of text =
    if str_eq text "priority_desc"
    then some priority_desc
    else if str_eq text "priority_asc"
    then some priority_asc
    else if str_eq text "received_at_desc"
    then some received_at_desc
    else if str_eq text "received_at_asc"
    then some received_at_asc
    else if str_eq text "lifecycle_status_asc"
    then some lifecycle_status_asc
    else if str_eq text "lifecycle_status_desc"
    then some lifecycle_status_desc
    else if str_eq text "tool_asc"
    then some tool_asc
    else if str_eq text "tool_desc"
    then some tool_desc
    else none

unfoldable pub bucket_of : String → Option Bucket
bucket_of text =
    if str_eq text "needs_follow_up"
    then some bucket_needs_follow_up
    else if str_eq text "new_unreviewed"
    then some new_unreviewed
    else if str_eq text "in_review"
    then some bucket_in_review
    else if str_eq text "older_unreviewed"
    then some older_unreviewed
    else if str_eq text "recently_received"
    then some recently_received
    else if str_eq text "has_attachments"
    then some has_attachments
    else if str_eq text "missing_source_context"
    then some missing_source_context
    else if str_eq text "unknown_tool"
    then some unknown_tool
    else if str_eq text "reviewed"
    then some bucket_reviewed
    else if str_eq text "ignored"
    then some bucket_ignored
    else none

unfoldable pub tool_of : String → Option Tool
tool_of text =
    if str_eq text "rfi"
    then some tool_rfi
    else if str_eq text "submittal"
    then some tool_submittal
    else if str_eq text "unknown"
    then some tool_unknown
    else none

unfoldable pub same_tool : Tool → Tool → Bool
same_tool tool_rfi tool_rfi = true
same_tool tool_submittal tool_submittal = true
same_tool tool_unknown tool_unknown = true
same_tool _ _ = false

unfoldable pub same_bucket : Bucket → Bucket → Bool
same_bucket bucket_needs_follow_up bucket_needs_follow_up = true
same_bucket new_unreviewed new_unreviewed = true
same_bucket bucket_in_review bucket_in_review = true
same_bucket older_unreviewed older_unreviewed = true
same_bucket recently_received recently_received = true
same_bucket has_attachments has_attachments = true
same_bucket missing_source_context missing_source_context = true
same_bucket unknown_tool unknown_tool = true
same_bucket bucket_reviewed bucket_reviewed = true
same_bucket bucket_ignored bucket_ignored = true
same_bucket _ _ = false
