-- ===== src/Triage/Summary.antt =====
-- app/services/operator_triage_queue.py: build_operator_triage_summary.
use procore_intake_bridge.Triage.Sorting.{TriageItem}
use procore_intake_bridge.Base.{
  ℕ, String, Bool, none, some, List, [], ◌∷◌, map, length, count, if◌then◌else◌,
}
use procore_intake_bridge.Base.Int.{pos}
use procore_intake_bridge.Models.{Instant}
use procore_intake_bridge.Models.Settings.{Settings}
use procore_intake_bridge.Exceptions.{Result, returned, raised}
use procore_intake_bridge.Database.{Tables}
use procore_intake_bridge.Lifecycle.Texts.{Patterns, is_unsafe_response}
use procore_intake_bridge.Lifecycle.Vocabulary.{Status}
use procore_intake_bridge.Lifecycle.Report.{same_status}
use procore_intake_bridge.Triage.Vocabulary.{Bucket, TriageStatus}
use procore_intake_bridge.Triage.Queue.{
  TriagePage, in_bucket, list_operator_triage_queue, build_items, unsafe_response,
}
use procore_intake_bridge.Triage.Filter.{build_operator_triage_filter}

pub record TriageSummary : Type 0 where
  pub status : TriageStatus
  pub total_records : ℕ
  pub buckets : List (Bucket × ℕ)
  pub lifecycle_distribution : Status → ℕ
  pub message : String

abbrev pub all_buckets : List Bucket
all_buckets =
    Bucket.bucket_needs_follow_up ∷ Bucket.new_unreviewed ∷ Bucket.bucket_in_review
    ∷ Bucket.older_unreviewed ∷ Bucket.recently_received ∷ Bucket.has_attachments
    ∷ Bucket.missing_source_context ∷ Bucket.unknown_tool ∷ Bucket.bucket_reviewed
    ∷ Bucket.bucket_ignored ∷ []

abbrev pub bucket_count : List TriageItem → Bucket → ℕ
bucket_count items bucket = count (in_bucket (some bucket)) items

abbrev pub item_has_status : Status → TriageItem → Bool
item_has_status status item = same_status item.lifecycle_status status

abbrev pub summary_status : List TriageItem → TriageStatus
summary_status [] = TriageStatus.empty
summary_status (x ∷ items) = TriageStatus.available

abbrev pub summary_message : List TriageItem → String
summary_message [] = "No local records yet; start with the safe Demo flow."
summary_message (x ∷ items) = "Sanitized local triage data is available."

-- The summary of all items.
unfoldable pub items_summary : List TriageItem → TriageSummary
items_summary items = record {
  status = summary_status items;
  total_records = length items;
  buckets = map (λ bucket. (bucket, bucket_count items bucket)) all_buckets;
  lifecycle_distribution = λ status. count (item_has_status status) items;
  message = summary_message items;
}

unfoldable pub unavailable_summary : TriageStatus → TriageSummary
unavailable_summary status = record {
  status = status;
  total_records = 0;
  buckets = [];
  lifecycle_distribution = λ status. 0;
  message = "Operator Triage Queue is unavailable.";
}

module _ (patterns : Patterns) (settings : Settings) where
  unfoldable pub checked_summary : Result (List TriageItem) → Result TriageSummary
  unfolding items_summary
  checked_summary (raised e) = raised e
  checked_summary (returned items) =
      if is_unsafe_response patterns TriageSummary (items_summary items)
      then raised unsafe_response
      else returned (items_summary items)

  -- What follows on the status of the page that was read first.
  unfoldable pub summary_of_status : Bool → Tables → Instant → TriageStatus → Result TriageSummary
  unfolding unavailable_summary checked_summary
  summary_of_status has_states t now TriageStatus.disabled =
      returned (unavailable_summary TriageStatus.disabled)
  summary_of_status has_states t now TriageStatus.needs_configuration =
      returned (unavailable_summary TriageStatus.needs_configuration)
  summary_of_status has_states t now TriageStatus.empty = checked_summary (returned [])
  summary_of_status has_states t now TriageStatus.available =
      checked_summary (build_items patterns settings has_states t now)

  unfoldable pub summary_of_page :
      Bool → Tables → Instant → Result TriagePage → Result TriageSummary
  unfolding summary_of_status
  summary_of_page has_states t now (raised e) = raised e
  summary_of_page has_states t now (returned page) = summary_of_status has_states t now page.status

  unfoldable pub build_operator_triage_summary :
      Bool → Bool → Tables → Instant → Result TriageSummary
  unfolding summary_of_page
  build_operator_triage_summary has_records has_states t now =
      elim (build_operator_triage_filter settings none none none (pos 1)
        (some (pos settings.triage_queue_max_page_size)) none) [
          | raised e ↦ raised e
          | returned filters ↦
              summary_of_page has_states t now
                (list_operator_triage_queue patterns settings has_records has_states filters t now)
        ]
