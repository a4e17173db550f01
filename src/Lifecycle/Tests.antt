-- ===== src/Lifecycle/Tests.antt =====
-- The theorems on app/services/intake_lifecycle.py at sample rows.
use procore_intake_bridge.Lifecycle.Recorded.{IsMoved, IsRecorded}
use procore_intake_bridge.Text.{text_length}
use procore_intake_bridge.Lifecycle.Canonical.{IsReading, normalize_lifecycle_status_lem}
use procore_intake_bridge.Database.{committed}
use procore_intake_bridge.Exceptions.{lifecycle_error, returned, Result}
use procore_intake_bridge.Lifecycle.Outcome.{apply_raised_rolls_back, IsAccepted, apply_accepted}
use procore_intake_bridge.Lifecycle.Views.{ensure_enabled, state_view, event_item}
use procore_intake_bridge.Lifecycle.States.{
  get_or_create_lifecycle_state, find_state, get_or_create_state, repair_state, canonical_state,
}
use procore_intake_bridge.Lifecycle.Summary.{
  states_with, reads_as, reads_normalized, reads_unknown, state_summary_lem,
}
use procore_intake_bridge.Models.Settings.{default_settings}
use procore_intake_bridge.Lifecycle.Vocabulary.{
  in_review, new, reviewed, reopened_for_review, status_of, legacy_status_by, is_allowed, raw_is,
  legacy_reason_by, normalize_lifecycle_status, reason_summary,
}
use procore_intake_bridge.Lifecycle.Audit.{IsAudited, apply-IsAudited, apply_returned_lem}
use procore_intake_bridge.Lifecycle.Report.{state_summary}
use procore_intake_bridge.Lifecycle.Transition.{
  TransitionRequest, Stamp, apply_lifecycle_transition, attempt_transition, transition_result,
  refusal, TransitionResult, validate_lifecycle_transition, is_unsafe_summary, chosen_summary,
}
use procore_intake_bridge.Memory.{MemorySession, opened, no_rows, memory}
use procore_intake_bridge.Models.{IntakeReviewState, IntakeReviewLifecycleEvent}
use procore_intake_bridge.Lifecycle.Texts.{is_unsafe_response, sanitize_lifecycle_value}
use procore_intake_bridge.Base.{
  true, false, refl, none, some, ◌≡◌, ◌∷◌, [], ◌++◌, arith, find_row, Bool, count, ap, List,
}
use procore_intake_bridge.Samples.{noon, sample_patterns, sample_record}

-- A row of the Demo seed, with a legacy status.
abbrev legacy_state : IntakeReviewState
legacy_state = record {
  id = 1;
  intake_record_id = 5;
  status = "completed";
  current_reason_code = some "j2_demo_fixture";
  current_reason_summary_sanitized = none;
  actor_hash = none;
  actor_label_masked = none;
  event_count = 1;
}

abbrev legacy_event : IntakeReviewLifecycleEvent
legacy_event = record {
  id = 1;
  intake_record_id = 5;
  from_status = "new";
  to_status = "completed";
  reason_code = "j2_demo_fixture";
  reason_summary_sanitized = "Synthetic Demo reason.";
  actor_hash = none;
  actor_label_masked = none;
  request_id_hash = none;
  source = "local_review_workspace";
  created_at = noon;
}

abbrev review_session : MemorySession
review_session = opened (record no_rows {
  intake_records = sample_record ∷ [];
  review_states = legacy_state ∷ [];
  lifecycle_events = legacy_event ∷ [];
})

abbrev all_tables : MemorySession → Bool
all_tables s = true

abbrev reopening : TransitionRequest
reopening = record {
  to_status = in_review;
  reason_code = reopened_for_review;
  reason_summary = none;
  actor_label = "Ana Ruiz";
  request_id = none;
}

abbrev restarting : TransitionRequest
restarting = record reopening { to_status = new }

abbrev sample_stamp : Stamp
sample_stamp = record { state_key = 2; event_key = 2; created_at = noon }

abbrev repaired_state : IntakeReviewState
repaired_state = record legacy_state {
  status = "reviewed";
  current_reason_code = some "demo_placeholder_reason";
}

-- Three stored texts, two of which are read as the same status.
abbrev mixed_states : List IntakeReviewState
mixed_states =
    legacy_state ∷ repaired_state ∷ record legacy_state { status = "archived" } ∷ legacy_state ∷ []

state_summary_lem_example :
    let summary = state_summary mixed_states 1 in
    (summary.counts_by_status reviewed ≡ states_with (reads_as reviewed) mixed_states)
    × (summary.total_states ≡ 4)
    × (summary.normalized_status_count ≡ states_with reads_normalized mixed_states)
    × (summary.unknown_status_count ≡ states_with reads_unknown mixed_states)
state_summary_lem_example = state_summary_lem reviewed mixed_states 1

apply_raised_rolls_back_example :
    (apply_lifecycle_transition sample_patterns default_settings memory all_tables 6 reopening
      sample_stamp review_session).1
    ≡ memory.rollback review_session
unfolding apply_lifecycle_transition attempt_transition get_or_create_lifecycle_state ensure_enabled
    find_row
apply_raised_rolls_back_example =
    apply_raised_rolls_back sample_patterns default_settings memory all_tables 6 reopening
      sample_stamp review_session (lifecycle_error "Local intake record not found.") refl

review_started :
    (get_or_create_lifecycle_state memory all_tables default_settings 5 2 review_session).0
    ≡ returned repaired_state
unfolding get_or_create_lifecycle_state ensure_enabled find_row get_or_create_state repair_state
    canonical_state legacy_status_by raw_is legacy_reason_by normalize_lifecycle_status
review_started = refl

reopening_accepted : refusal sample_patterns default_settings repaired_state reopening ≡ none
unfolding refusal validate_lifecycle_transition ensure_enabled status_of is_allowed
    is_unsafe_summary chosen_summary sanitize_lifecycle_value reason_summary text_length
reopening_accepted = refl

reopening_safe :
    is_unsafe_response sample_patterns TransitionResult
      (transition_result sample_patterns default_settings repaired_state reopening sample_stamp)
    ≡ false
unfolding is_unsafe_response
reopening_safe = refl

apply_returned_lem_example :
    let s' =
      (apply_lifecycle_transition sample_patterns default_settings memory all_tables 5 reopening
        sample_stamp review_session).1 in
    let before =
      (get_or_create_lifecycle_state memory all_tables default_settings 5 2 review_session).1 in
    let answer =
      transition_result sample_patterns default_settings repaired_state reopening sample_stamp in
    (state : IntakeReviewState) × (after : IntakeReviewState) × (event : IntakeReviewLifecycleEvent)
    × IsAccepted default_settings state reopening
    × IsMoved sample_patterns default_settings reopening state after
    × IsRecorded sample_patterns default_settings reopening state sample_stamp event
    × (find_state 5 (memory.tables before) ≡ some state)
    × (find_state 5 (memory.tables s') ≡ some after)
    × ((memory.tables s').lifecycle_events
        ≡ (memory.tables before).lifecycle_events ++ (event ∷ []))
    × (answer.state ≡ state_view sample_patterns after)
    × (answer.event ≡ event_item sample_patterns event)
    × (committed memory s' ≡ memory.tables s')
unfolding apply_lifecycle_transition attempt_transition get_or_create_lifecycle_state ensure_enabled
    find_row
apply_returned_lem_example =
    apply_returned_lem sample_patterns default_settings memory all_tables 5 reopening sample_stamp
      review_session
      (transition_result sample_patterns default_settings repaired_state reopening sample_stamp)
      (ap (λ (o : Result TransitionResult × MemorySession). o.0)
        (apply_accepted sample_patterns default_settings memory all_tables 5 reopening sample_stamp
          review_session repaired_state review_started reopening_accepted reopening_safe))

review-IsAudited : IsAudited default_settings 5 (memory.tables review_session)
unfolding find_row count
review-IsAudited = record { counted = refl; bounded = omega arith }

apply-IsAudited_example : IsAudited default_settings 5 (
    memory.tables
      (apply_lifecycle_transition sample_patterns default_settings memory all_tables 5 reopening
        sample_stamp review_session).1)
apply-IsAudited_example =
    apply-IsAudited sample_patterns default_settings memory all_tables 5 reopening sample_stamp
      review_session refl review-IsAudited

normalize_lifecycle_status_lem_example :
    IsReading " Completed " (normalize_lifecycle_status " Completed ")
normalize_lifecycle_status_lem_example = normalize_lifecycle_status_lem " Completed "
