-- ===== src/Triage/Tests.antt =====
-- The theorems on app/services/operator_triage_queue.py at sample rows.
use procore_intake_bridge.Triage.Sorting.{TriageItem}
use procore_intake_bridge.Text.{strip_start, strip_end, folds_to, fold_code, is_space}
use procore_intake_bridge.Lifecycle.Vocabulary.{normalize_lifecycle_status, status_by, raw_is}
use procore_intake_bridge.Base.{◌≡◌, refl, true, false, arith, none, some, List, [], ◌∷◌, map}
use procore_intake_bridge.Base.Int.{ltb_ℤ}
use procore_intake_bridge.Base.Pages.{pages_upto}
use procore_intake_bridge.Base.Sort.{IsSorted}
use mathlib.Core.List.{Perm}
use procore_intake_bridge.Database.{Tables}
use procore_intake_bridge.Exceptions.{returned}
use procore_intake_bridge.Memory.{no_rows}
use procore_intake_bridge.Models.{IntakeReviewState}
use procore_intake_bridge.Models.Settings.{Settings, default_settings}
use procore_intake_bridge.Lifecycle.Texts.{is_unsafe_response}
use procore_intake_bridge.Triage.Vocabulary.{
  tool_rfi, priority_desc, sort_of, missing_source_context,
}
use procore_intake_bridge.Triage.Signals.{compute_triage_signals, compute_triage_priority_score}
use procore_intake_bridge.Triage.Score.{score-urgency}
use procore_intake_bridge.Triage.Queue.{
  TriageFilter, build_item, build_each, build_items, filter_items, queue_page, in_bucket,
  list_operator_triage_queue, safe_configuration,
}
use procore_intake_bridge.Triage.Sorting.{is_before}
use procore_intake_bridge.Triage.Filter.{build_operator_triage_filter, parse_filter}
use procore_intake_bridge.Triage.Pages.{listed, listed-pages}
use procore_intake_bridge.Triage.Items.{unhashed-missing_source_context}
use procore_intake_bridge.Triage.Counts.{IsSummaryOf, summary-IsSummaryOf}
use procore_intake_bridge.Triage.Summary.{
  build_operator_triage_summary, items_summary, checked_summary, summary_of_page, summary_of_status,
}
use procore_intake_bridge.Base.Sort.{sort}
use procore_intake_bridge.Base.{select}
use procore_intake_bridge.Triage.Sorting.{key_le}
use procore_intake_bridge.Base.Int.{◌+ℤ◌}
use procore_intake_bridge.Triage.Context.{
  build_intake_review_attachment_summary, build_intake_review_source_context,
  hash_intake_review_identifier, classify_intake_review_tool,
}
use procore_intake_bridge.Text.{strip, first_characters}
use procore_intake_bridge.Triage.Vocabulary.{same_tool}
use procore_intake_bridge.Samples.{noon, sample_patterns, sample_record}

abbrev triage_tables : Tables
triage_tables = record no_rows {
  intake_records = sample_record ∷ record sample_record { id = 6; source_type = "Submittals" } ∷ [];
  review_states =
      record {
        id = 1;
        intake_record_id = 5;
        status = "reviewed";
        current_reason_code = none;
        current_reason_summary_sanitized = none;
        actor_hash = none;
        actor_label_masked = none;
        event_count = 0;
      }
      ∷ [];
}

abbrev follow_up : IntakeReviewState
follow_up = record {
  id = 1;
  intake_record_id = 5;
  status = "needs_follow_up";
  current_reason_code = none;
  current_reason_summary_sanitized = none;
  actor_hash = none;
  actor_label_masked = none;
  event_count = 0;
}

score-urgency_example :
    ltb_ℤ
      (compute_triage_priority_score
        (compute_triage_signals (some noon) tool_rfi none none none default_settings noon))
      (compute_triage_priority_score (
        compute_triage_signals
          (some noon)
          tool_rfi
          (some follow_up)
          none
          none
          default_settings
          noon))
    ≡ true
unfolding normalize_lifecycle_status status_by raw_is strip_start strip_end folds_to fold_code
    is_space
score-urgency_example =
    score-urgency (some noon) tool_rfi none none default_settings noon none (some follow_up) refl
      (omega arith)

abbrev first_filter : TriageFilter
first_filter = record {
  bucket = none;
  tool = none;
  lifecycle_status = none;
  page = 1;
  page_size = 1;
  sort = priority_desc;
}

abbrev triage_items : List TriageItem
triage_items =
    map (build_item sample_patterns default_settings triage_tables.review_states triage_tables noon)
      triage_tables.intake_records

triage_built :
    build_items sample_patterns default_settings true triage_tables noon ≡ returned triage_items
unfolding build_items build_each is_unsafe_response
triage_built = refl

listed-pages_example :
    let all_pages =
      pages_upto
        (listed sample_patterns default_settings true triage_tables noon first_filter)
        (queue_page first_filter triage_items).total_pages in
    Perm all_pages (filter_items first_filter triage_items)
    × IsSorted (is_before first_filter.sort) all_pages
unfolding is_unsafe_response safe_configuration
listed-pages_example =
    listed-pages sample_patterns default_settings true triage_tables noon first_filter triage_items
      (omega arith) refl refl triage_built (λ page. refl)

summary-IsSummaryOf_example :
    IsSummaryOf sample_patterns default_settings true triage_tables noon
      (items_summary triage_items)
unfolding build_operator_triage_summary build_operator_triage_filter parse_filter sort_of
    list_operator_triage_queue summary_of_page summary_of_status checked_summary is_unsafe_response
    safe_configuration sort select key_le build_item ◌+ℤ◌ build_intake_review_attachment_summary
    build_intake_review_source_context hash_intake_review_identifier strip first_characters
    same_tool classify_intake_review_tool folds_to normalize_lifecycle_status
summary-IsSummaryOf_example =
    summary-IsSummaryOf sample_patterns default_settings true triage_tables noon
      (items_summary triage_items) refl refl refl

abbrev unhashed_settings : Settings
unhashed_settings = record default_settings { intake_review_workspace_hash_source_ids = false }

unhashed-missing_source_context_example :
    in_bucket
      (some missing_source_context)
      (build_item sample_patterns unhashed_settings [] triage_tables noon sample_record)
    ≡ true
unhashed-missing_source_context_example =
    unhashed-missing_source_context sample_patterns unhashed_settings triage_tables noon
      sample_record [] refl refl
