-- ===== src/Lifecycle/Report.antt =====
-- app/services/intake_lifecycle.py: the history of a record and the summary of all states.
use procore_intake_bridge.Base.{
  ℕ, ◌+◌, ◌-◌, ◌*◌, ◌/◌, Bool, true, false, ◌&&◌, ◌||◌, not, none, some, List, [], ◌∷◌, map, max,
  min, ltb, leb, ◌==◌, if◌then◌else◌, select, length, take, drop, find_row, String, str_eq, Option,
}
use procore_intake_bridge.Base.Sort.{sort}
use procore_intake_bridge.Models.{IntakeRecord, IntakeReviewState, IntakeReviewLifecycleEvent}
use procore_intake_bridge.Models.Settings.{Settings}
use procore_intake_bridge.Exceptions.{lifecycle_blocked, lifecycle_error, Result, returned, raised}
use procore_intake_bridge.Database.{Tables}
use procore_intake_bridge.Lifecycle.Vocabulary.{
  Status, new, in_review, reviewed, needs_follow_up, ignored, Normalization,
  legacy_status_normalized, unknown_status_needs_review, normalize_lifecycle_status,
}
use procore_intake_bridge.Lifecycle.Texts.{Patterns, is_unsafe_response}
use procore_intake_bridge.Lifecycle.Views.{
  EventItem, event_item, ensure_enabled, safe_configuration,
}

pub record HistoryPage : Type 0 where
  pub items : List EventItem
  pub page : ℕ
  pub page_size : ℕ
  pub total_items : ℕ
  pub total_pages : ℕ

-- ORDER BY created_at DESC, id DESC.
abbrev pub is_newer : IntakeReviewLifecycleEvent → IntakeReviewLifecycleEvent → Bool
is_newer a b = ltb b.created_at a.created_at || (a.created_at == b.created_at && leb b.id a.id)

abbrev pub events_of : ℕ → Tables → List IntakeReviewLifecycleEvent
events_of i t =
    select (λ (e : IntakeReviewLifecycleEvent). e.intake_record_id == i) t.lifecycle_events

abbrev pub bounded_size : Settings → ℕ → ℕ
bounded_size settings page_size =
    min (max page_size 1) settings.intake_lifecycle_max_events_per_record

-- OFFSET and LIMIT of a page, counted from 1.
unfoldable pub page_rows : ℕ → ℕ → List IntakeReviewLifecycleEvent → List IntakeReviewLifecycleEvent
page_rows page size es = take size (drop ((page - 1) * size) (sort is_newer es))

-- `math.ceil(total / size) if total else 0`.
unfoldable pub page_count : ℕ → ℕ → ℕ
page_count total size = (total + (size - 1)) / size

unfoldable pub history_page : Patterns → ℕ → ℕ → ℕ → Tables → HistoryPage
unfolding page_rows page_count
history_page patterns i page size t = record {
  items = map (event_item patterns) (page_rows page size (events_of i t));
  page = page;
  page_size = size;
  total_items = length (events_of i t);
  total_pages = page_count (length (events_of i t)) size;
}

unfoldable pub list_lifecycle_history :
    Patterns → Settings → ℕ → ℕ → ℕ → Tables → Result HistoryPage
list_lifecycle_history patterns settings i page page_size t = elim (ensure_enabled settings) [
  | some e ↦ raised e
  | none ↦ elim (find_row (λ (r : IntakeRecord). r.id) i t.intake_records) [
    | none ↦ raised (lifecycle_error "Local intake record not found.")
    | some r ↦
        let result = history_page patterns i (max page 1) (bounded_size settings page_size) t in
        if is_unsafe_response patterns HistoryPage result
        then raised (lifecycle_blocked "Unsafe lifecycle response was blocked.")
        else returned result
  ]
]

pub record Summary : Type 0 where
  pub enabled : Bool
  pub total_states : ℕ
  pub counts_by_status : Status → ℕ
  pub total_events : ℕ
  pub normalized_status_count : ℕ
  pub unknown_status_count : ℕ
  pub message : String
  pub findings : List Normalization

unfoldable pub same_status : Status → Status → Bool
same_status new new = true
same_status in_review in_review = true
same_status reviewed reviewed = true
same_status needs_follow_up needs_follow_up = true
same_status ignored ignored = true
same_status _ _ = false

-- A summary that has read no state.
unfoldable pub empty_summary : Bool → String → Summary
empty_summary enabled message = record {
  enabled = enabled;
  total_states = 0;
  counts_by_status = λ status. 0;
  total_events = 0;
  normalized_status_count = 0;
  unknown_status_count = 0;
  message = message;
  findings = [];
}

-- `sum(counts.values())`.
abbrev pub sum_counts : (Status → ℕ) → ℕ
sum_counts counts =
    counts new + counts in_review + counts reviewed + counts needs_follow_up + counts ignored

unfoldable pub found_if : ℕ → Normalization → List Normalization → List Normalization
found_if n finding rest = if n == 0 then rest else finding ∷ rest

-- `SELECT status, count(*) … GROUP BY status`: a row for each stored text, with how often it is stored.
unfoldable pub add_to_group : String → List (String × ℕ) → List (String × ℕ)
add_to_group raw_status [] = (raw_status, 1) ∷ []
add_to_group raw_status ((x, n) ∷ rows) =
    let rest = add_to_group raw_status rows in
    if str_eq x raw_status then (x, n + 1) ∷ rows else (x, n) ∷ rest

unfoldable pub group_by_status : List IntakeReviewState → List (String × ℕ)
unfolding add_to_group
group_by_status [] = []
group_by_status (x ∷ states) = add_to_group x.status (group_by_status states)

-- The variables of the loop over the groups. `counts` is 0 for a status that it does not have.
pub record Tally : Type 0 where
  pub counts : Status → ℕ
  pub normalized_status_count : ℕ
  pub unknown_status_count : ℕ

-- `counts[status] = counts.get(status, 0) + count`.
abbrev pub add_count : Status → ℕ → (Status → ℕ) → Status → ℕ
add_count status n counts other_status =
    if same_status status other_status then counts status + n else counts other_status

-- The body of the loop, once the text of the group is read.
unfoldable pub count_reading : Status × Option Normalization → ℕ → Tally → Tally
count_reading (status, none) n tally = record tally { counts = add_count status n tally.counts }
count_reading (status, some legacy_status_normalized) n tally = record tally {
  counts = add_count status n tally.counts;
  normalized_status_count = tally.normalized_status_count + n;
}
count_reading (status, some unknown_status_needs_review) n tally = record {
  counts = add_count status n tally.counts;
  normalized_status_count = tally.normalized_status_count + n;
  unknown_status_count = tally.unknown_status_count + n;
}

unfoldable pub count_groups : List (String × ℕ) → Tally → Tally
unfolding count_reading
count_groups [] tally = tally
count_groups ((raw_status, n) ∷ rows) tally =
    count_groups rows (count_reading (normalize_lifecycle_status raw_status) n tally)

abbrev pub no_tally : Tally
no_tally = record { counts = λ status. 0; normalized_status_count = 0; unknown_status_count = 0 }

unfoldable pub state_summary : List IntakeReviewState → ℕ → Summary
unfolding group_by_status count_groups found_if
state_summary states total_events =
    let tally = count_groups (group_by_status states) no_tally in
    record {
      enabled = true;
      total_states = sum_counts tally.counts;
      counts_by_status = tally.counts;
      total_events = total_events;
      normalized_status_count = tally.normalized_status_count;
      unknown_status_count = tally.unknown_status_count;
      message = "Sanitized local lifecycle state is available.";
      findings =
          found_if tally.normalized_status_count legacy_status_normalized
            (found_if tally.unknown_status_count unknown_status_needs_review []);
    }

unfoldable pub build_lifecycle_summary : Patterns → Settings → Bool → Tables → Result Summary
unfolding state_summary empty_summary
build_lifecycle_summary patterns settings has_tables t =
    if not settings.intake_lifecycle_enabled
    then returned (empty_summary false "Local intake lifecycle is disabled.")
    else if not (safe_configuration settings)
    then returned (empty_summary false "Unsafe lifecycle exposure settings were blocked.")
    else if not has_tables
    then returned (empty_summary true "Lifecycle tables are not initialized; no local state read.")
    else let summary = state_summary t.review_states (length t.lifecycle_events) in
      if is_unsafe_response patterns Summary summary
      then raised (lifecycle_blocked "Unsafe lifecycle response was blocked.")
      else returned summary
