-- ===== src/Lifecycle/Vocabulary.antt =====
-- app/services/intake_lifecycle.py and app/schemas/intake_lifecycle.py: statuses, reason codes, their
-- stored texts, and the transitions between statuses.
use procore_intake_bridge.Text.{strip_start, strip_end, folds_to}
use procore_intake_bridge.Base.{
  String, Bool, true, false, Option, none, some, if◌then◌else◌, str_eq,
}

pub data Status : Type 0 where
  new in_review reviewed needs_follow_up ignored : Status

pub data ReasonCode : Type 0 where
  initial_review_started reviewed_no_action_needed follow_up_needed : ReasonCode
  duplicate_or_irrelevant reopened_for_review marked_in_error demo_placeholder_reason : ReasonCode

abbrev pub status_value : Status → String
status_value new = "new"
status_value in_review = "in_review"
status_value reviewed = "reviewed"
status_value needs_follow_up = "needs_follow_up"
status_value ignored = "ignored"

abbrev pub reason_value : ReasonCode → String
reason_value initial_review_started = "initial_review_started"
reason_value reviewed_no_action_needed = "reviewed_no_action_needed"
reason_value follow_up_needed = "follow_up_needed"
reason_value duplicate_or_irrelevant = "duplicate_or_irrelevant"
reason_value reopened_for_review = "reopened_for_review"
reason_value marked_in_error = "marked_in_error"
reason_value demo_placeholder_reason = "demo_placeholder_reason"

-- The value of an enum by a test of its text, none for a `ValueError`.
unfoldable pub status_by : (String → Bool) → Option Status
status_by test =
    if test "new"
    then some new
    else if test "in_review"
    then some in_review
    else if test "reviewed"
    then some reviewed
    else if test "needs_follow_up"
    then some needs_follow_up
    else if test "ignored"
    then some ignored
    else none

unfoldable pub reason_by : (String → Bool) → Option ReasonCode
reason_by test =
    if test "initial_review_started"
    then some initial_review_started
    else if test "reviewed_no_action_needed"
    then some reviewed_no_action_needed
    else if test "follow_up_needed"
    then some follow_up_needed
    else if test "duplicate_or_irrelevant"
    then some duplicate_or_irrelevant
    else if test "reopened_for_review"
    then some reopened_for_review
    else if test "marked_in_error"
    then some marked_in_error
    else if test "demo_placeholder_reason"
    then some demo_placeholder_reason
    else none

-- `IntakeLifecycleStatus(text)`.
unfoldable pub status_of : String → Option Status
unfolding status_by
status_of text = status_by (str_eq text)

-- `LEGACY_LIFECYCLE_STATUS_MAP.get` and `LEGACY_LIFECYCLE_REASON_CODE_MAP.get`.
unfoldable pub legacy_status_by : (String → Bool) → Option Status
legacy_status_by test =
    if test "blocked"
    then some needs_follow_up
    else if test "completed"
    then some reviewed
    else none

unfoldable pub legacy_reason_by : (String → Bool) → Option ReasonCode
legacy_reason_by test = if test "j2_demo_fixture" then some demo_placeholder_reason else none

-- `target in ALLOWED_TRANSITIONS[source]`.
unfoldable pub is_allowed : Status → Status → Bool
is_allowed new in_review = true
is_allowed new reviewed = true
is_allowed new needs_follow_up = true
is_allowed new ignored = true
is_allowed in_review reviewed = true
is_allowed in_review needs_follow_up = true
is_allowed in_review ignored = true
is_allowed reviewed in_review = true
is_allowed reviewed needs_follow_up = true
is_allowed needs_follow_up in_review = true
is_allowed needs_follow_up reviewed = true
is_allowed needs_follow_up ignored = true
is_allowed ignored in_review = true
is_allowed _ _ = false

unfoldable pub reason_summary : ReasonCode → String
reason_summary initial_review_started = "Initial local review started."
reason_summary reviewed_no_action_needed = "Local review completed; no action noted."
reason_summary follow_up_needed = "Local follow-up is needed."
reason_summary duplicate_or_irrelevant = "Marked duplicate or irrelevant locally."
reason_summary reopened_for_review = "Reopened for local review."
reason_summary marked_in_error = "Prior local status was marked in error."
reason_summary demo_placeholder_reason = "Synthetic Demo reason."

-- `_raw_lifecycle_value(value) == key`.
unfoldable pub raw_is : String → String → Bool
unfolding strip_start strip_end folds_to
raw_is value key = folds_to (strip_end (strip_start value)) key

-- How a stored status was read, where it was not one of the enum.
pub data Normalization : Type 0 where
  legacy_status_normalized unknown_status_needs_review : Normalization

unfoldable pub normalize_lifecycle_status : String → Status × Option Normalization
unfolding raw_is status_by legacy_status_by
normalize_lifecycle_status value = elim (status_by (raw_is value)) [
  | some status ↦ (status, none)
  | none ↦ elim (legacy_status_by (raw_is value)) [
    | some mapped ↦ (mapped, some legacy_status_normalized)
    | none ↦ (needs_follow_up, some unknown_status_needs_review)
  ]
]

unfoldable pub normalize_reason_text : String → Option ReasonCode
unfolding raw_is reason_by legacy_reason_by
normalize_reason_text value = if raw_is value "" then none else elim (reason_by (raw_is value)) [
  | some reason ↦ some reason
  | none ↦ elim (legacy_reason_by (raw_is value)) [
    | some mapped ↦ some mapped
    | none ↦ some demo_placeholder_reason
  ]
]

unfoldable pub normalize_lifecycle_reason_code : Option String → Option ReasonCode
unfolding normalize_reason_text
normalize_lifecycle_reason_code none = none
normalize_lifecycle_reason_code (some value) = normalize_reason_text value
