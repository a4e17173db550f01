-- ===== src/Triage/Queue.antt =====
-- app/services/operator_triage_queue.py: the filters, the pages, _build_items and list_operator_triage_queue.
use procore_intake_bridge.Triage.Sorting.{TriageItem, sort_items}
use procore_intake_bridge.Base.{
  ℕ, ◌-◌, ◌*◌, String, Bool, true, false, ◌&&◌, ◌||◌, not, Option, none, some, List, [], ◌∷◌, ◌==◌,
  if◌then◌else◌, select, length, take, drop, suc, zero,
}
use procore_intake_bridge.Models.{Instant, IntakeRecord, IntakeReviewState}
use procore_intake_bridge.Models.Settings.{Settings}
use procore_intake_bridge.Exceptions.{Result, returned, raised, Exception, other}
use procore_intake_bridge.Database.{Tables}
use procore_intake_bridge.Lifecycle.Texts.{Patterns, is_unsafe_response}
use procore_intake_bridge.Lifecycle.Vocabulary.{Status}
use procore_intake_bridge.Lifecycle.Report.{same_status, page_count}
use procore_intake_bridge.Triage.Vocabulary.{
  Bucket, Tool, Sort, TriageStatus, same_tool, same_bucket,
}
use procore_intake_bridge.Triage.Context.{
  AttachmentSummary, classify_intake_review_tool, mask_intake_review_identifier,
  hash_intake_review_identifier, sanitize_intake_review_value,
  build_intake_review_attachment_summary, build_intake_review_source_context,
}
use procore_intake_bridge.Triage.Signals.{
  state_status, compute_triage_signals, compute_triage_priority_score, assign_triage_buckets,
}

pub record TriageFilter : Type 0 where
  pub bucket : Option Bucket
  pub tool : Option Tool
  pub lifecycle_status : Option Status
  pub page : ℕ
  pub page_size : ℕ
  pub sort : Sort

pub record TriagePage : Type 0 where
  pub status : TriageStatus
  pub items : List TriageItem
  pub page : ℕ
  pub page_size : ℕ
  pub total_items : ℕ
  pub total_pages : ℕ
  pub sort : Sort
  pub bucket_filter : Option Bucket
  pub tool_filter : Option Tool
  pub lifecycle_filter : Option Status

unfoldable pub safe_configuration : Settings → Bool
safe_configuration settings =
    not (settings.triage_queue_expose_raw_payloads || settings.triage_queue_expose_private_paths)

-- `states.get(record_id)`: the last row of a record, as a dictionary keeps it.
unfoldable pub state_of : ℕ → List IntakeReviewState → Option IntakeReviewState
state_of i [] = none
state_of i (x ∷ states) = elim (state_of i states) [
  | some later ↦ some later
  | none ↦ if x.intake_record_id == i then some x else none
]

abbrev pub manifest_count_of : Option AttachmentSummary → ℕ
manifest_count_of none = 0
manifest_count_of (some summary) = summary.manifest_count

abbrev pub or_dots : Option String → String
or_dots none = "••••"
or_dots (some text) = text

abbrev pub unsafe_response : Exception
unsafe_response = other "OperatorTriageQueueError" "Unsafe operator triage response was blocked."

-- `bucket in buckets`.
unfoldable pub is_in : Bucket → List Bucket → Bool
unfolding same_bucket
is_in bucket [] = false
is_in bucket (b ∷ buckets) = same_bucket bucket b || is_in bucket buckets

-- The filters, each of which lets all items through where it is not given.
abbrev pub in_bucket : Option Bucket → TriageItem → Bool
in_bucket none item = true
in_bucket (some bucket) item = is_in bucket item.buckets

abbrev pub of_tool : Option Tool → TriageItem → Bool
of_tool none item = true
of_tool (some tool) item = same_tool item.tool tool

abbrev pub of_status : Option Status → TriageItem → Bool
of_status none item = true
of_status (some status) item = same_status item.lifecycle_status status

unfoldable pub filter_items : TriageFilter → List TriageItem → List TriageItem
filter_items filters items =
    select (of_status filters.lifecycle_status)
      (select (of_tool filters.tool) (select (in_bucket filters.bucket) items))

unfoldable pub page_items : ℕ → ℕ → List TriageItem → List TriageItem
page_items page size items = take size (drop ((page - 1) * size) items)

abbrev pub listing_status : ℕ → TriageStatus
listing_status zero = TriageStatus.empty
listing_status (suc n) = TriageStatus.available

-- The page of a queue of items.
unfoldable pub queue_page : TriageFilter → List TriageItem → TriagePage
unfolding page_items sort_items filter_items page_count
queue_page filters all_items =
    let items = sort_items filters.sort (filter_items filters all_items) in
    record {
      status = listing_status (length items);
      items = page_items filters.page filters.page_size items;
      page = filters.page;
      page_size = filters.page_size;
      total_items = length items;
      total_pages = page_count (length items) filters.page_size;
      sort = filters.sort;
      bucket_filter = filters.bucket;
      tool_filter = filters.tool;
      lifecycle_filter = filters.lifecycle_status;
    }

-- The `base` of a page without items.
unfoldable pub empty_page : TriageStatus → TriageFilter → TriagePage
empty_page status filters = record {
  status = status;
  items = [];
  page = filters.page;
  page_size = filters.page_size;
  total_items = 0;
  total_pages = 0;
  sort = filters.sort;
  bucket_filter = filters.bucket;
  tool_filter = filters.tool;
  lifecycle_filter = filters.lifecycle_status;
}

module _ (patterns : Patterns) (settings : Settings) where
  unfoldable pub build_item : List IntakeReviewState → Tables → Instant → IntakeRecord → TriageItem
  unfolding state_of compute_triage_signals compute_triage_priority_score assign_triage_buckets
  build_item states t now r =
      let state = state_of r.id states in
      let attachments = build_intake_review_attachment_summary r settings t in
      let source = build_intake_review_source_context patterns r settings t in
      let signals =
        compute_triage_signals r.received_at (classify_intake_review_tool r.source_type) state
          attachments source settings now in
      record {
        record_id = r.id;
        tool = classify_intake_review_tool r.source_type;
        display_number = or_dots (mask_intake_review_identifier r.number);
        title = sanitize_intake_review_value patterns r.title;
        lifecycle_status = state_status state;
        received_at = r.received_at;
        updated_at = r.updated_at;
        source_id_masked =
            if settings.triage_queue_mask_source_ids
            then mask_intake_review_identifier r.procore_item_id
            else none;
        source_id_hash =
            if settings.triage_queue_hash_source_ids
            then hash_intake_review_identifier patterns r.procore_item_id
            else none;
        attachment_manifest_count = manifest_count_of attachments;
        signals = signals;
        buckets = assign_triage_buckets signals;
        priority_score = compute_triage_priority_score signals;
      }

  -- An item is checked before the next is built.
  unfoldable pub build_each :
      List IntakeReviewState → Tables → Instant → List IntakeRecord → Result (List TriageItem)
  build_each states t now [] = returned []
  build_each states t now (r ∷ records) =
      if is_unsafe_response patterns TriageItem (build_item states t now r)
      then raised unsafe_response
      else elim (build_each states t now records) [
        | raised e ↦ raised e
        | returned items ↦ returned (build_item states t now r ∷ items)
      ]

  -- `has_states` says whether the table of states exists. Records are in the order of their ids.
  unfoldable pub build_items : Bool → Tables → Instant → Result (List TriageItem)
  unfolding build_each
  build_items has_states t now =
      build_each (if has_states then t.review_states else []) t now t.intake_records

  -- A page that is returned only if it is safe.
  unfoldable pub checked_page : TriagePage → Result TriagePage
  checked_page page =
      if is_unsafe_response patterns TriagePage page then raised unsafe_response else returned page

  unfoldable pub list_operator_triage_queue :
      Bool → Bool → TriageFilter → Tables → Instant → Result TriagePage
  unfolding build_items queue_page checked_page empty_page safe_configuration
  list_operator_triage_queue has_records has_states filters t now =
      if not settings.triage_queue_enabled
      then returned (empty_page TriageStatus.disabled filters)
      else if settings.triage_queue_fail_closed && not (safe_configuration settings)
      then returned (empty_page TriageStatus.needs_configuration filters)
      else if not has_records
      then returned (empty_page TriageStatus.empty filters)
      else elim (build_items has_states t now) [
        | raised e ↦ raised e
        | returned items ↦ checked_page (queue_page filters items)
      ]
