-- ===== src/Lifecycle/Summary.antt =====
-- What the summary of app/services/intake_lifecycle.py counts.
use procore_intake_bridge.Base.{
  none, some, true, false, refl, inl, inr, ℕ, ◌≡◌, List, [], ◌∷◌, length, count, arith, Bool,
  String, if◌then◌else◌, ◌∙◌, ◌+◌, ap, Bool-cases, str_eq, eq_iff, Option,
}
use mathlib.Core.Path.{fun_ext}
use procore_intake_bridge.Models.{IntakeReviewState}
use procore_intake_bridge.Lifecycle.Vocabulary.{
  Status, Normalization, normalize_lifecycle_status, new, in_review, reviewed, needs_follow_up,
  ignored, legacy_status_normalized, unknown_status_needs_review,
}
use procore_intake_bridge.Lifecycle.Report.{
  sum_counts, same_status, state_summary, add_to_group, group_by_status, count_groups, no_tally,
  Tally, add_count, count_reading,
}

-- How one stored text is read: under a status, with a normalization, and with that of an unknown text.
abbrev pub reads_as : Status → String → Bool
reads_as status raw_status = same_status (normalize_lifecycle_status raw_status).0 status

abbrev pub is_normalized : Option Normalization → Bool
is_normalized none = false
is_normalized (some n) = true

abbrev pub is_unknown : Option Normalization → Bool
is_unknown (some unknown_status_needs_review) = true
is_unknown _ = false

abbrev pub reads_normalized : String → Bool
reads_normalized raw_status = is_normalized (normalize_lifecycle_status raw_status).1

abbrev pub reads_unknown : String → Bool
reads_unknown raw_status = is_unknown (normalize_lifecycle_status raw_status).1

-- The number of states whose text passes a test, one by one.
abbrev pub states_with : (String → Bool) → List IntakeReviewState → ℕ
states_with test states = count (λ (x : IntakeReviewState). test x.status) states

-- How often a text that passes a test is stored, by the rows of the groups.
weight : (String → Bool) → List (String × ℕ) → ℕ
weight test [] = 0
weight test ((raw, n) ∷ rows) = (if test raw then n else 0) + weight test rows

weight-add_to_group :
    (test : String → Bool) (raw_status : String) (rows : List (String × ℕ))
    → weight test (add_to_group raw_status rows)
      ≡ (if test raw_status then 1 else 0) + weight test rows
unfolding add_to_group weight
weight-add_to_group test raw_status [] = omega arith
weight-add_to_group test raw_status ((x, n) ∷ rows) = elim (Bool-cases (str_eq x raw_status)) [
  | inl same ↦ let own = ap test ((eq_iff x raw_status).0 same) in ground (arith, same, own)
  | inr differs ↦ ground (arith, differs, weight-add_to_group test raw_status rows)
]

weight-group_by_status :
    (test : String → Bool) (states : List IntakeReviewState)
    → weight test (group_by_status states) ≡ states_with test states
unfolding group_by_status count weight
weight-group_by_status test [] = refl
weight-group_by_status test (x ∷ states) =
    weight-add_to_group test x.status (group_by_status states)
    ∙ ap (λ n. (if test x.status then 1 else 0) + n) (weight-group_by_status test states)

same_status-eq : (a b : Status) → same_status a b ≡ true → a ≡ b
unfolding same_status
same_status-eq new new h = refl
same_status-eq in_review in_review h = refl
same_status-eq reviewed reviewed h = refl
same_status-eq needs_follow_up needs_follow_up h = refl
same_status-eq ignored ignored h = refl
same_status-eq _ _ h = cc

add_count_lem :
    (a b : Status) (n : ℕ) (counts : Status → ℕ)
    → add_count a n counts b ≡ counts b + (if same_status a b then n else 0)
add_count_lem a b n counts = elim (Bool-cases (same_status a b)) [
  | inl same ↦ rw same (ap (λ s. counts s + n) (same_status-eq a b same))
  | inr differs ↦ rw differs (omega arith)
]

count_reading-counts :
    (status : Status) (reading : Status × Option Normalization) (n : ℕ) (tally : Tally)
    → (count_reading reading n tally).counts status
      ≡ tally.counts status + (if same_status reading.0 status then n else 0)
unfolding count_reading
count_reading-counts status (own, none) n tally = add_count_lem own status n tally.counts
count_reading-counts status (own, some legacy_status_normalized) n tally =
    add_count_lem own status n tally.counts
count_reading-counts status (own, some unknown_status_needs_review) n tally =
    add_count_lem own status n tally.counts

count_reading-normalized :
    (reading : Status × Option Normalization) (n : ℕ) (tally : Tally)
    → (count_reading reading n tally).normalized_status_count
      ≡ tally.normalized_status_count + (if is_normalized reading.1 then n else 0)
unfolding count_reading
count_reading-normalized (own, none) n tally = omega arith
count_reading-normalized (own, some legacy_status_normalized) n tally = refl
count_reading-normalized (own, some unknown_status_needs_review) n tally = refl

count_reading-unknown :
    (reading : Status × Option Normalization) (n : ℕ) (tally : Tally)
    → (count_reading reading n tally).unknown_status_count
      ≡ tally.unknown_status_count + (if is_unknown reading.1 then n else 0)
unfolding count_reading
count_reading-unknown (own, none) n tally = omega arith
count_reading-unknown (own, some legacy_status_normalized) n tally = omega arith
count_reading-unknown (own, some unknown_status_needs_review) n tally = refl

count_groups-counts :
    (status : Status) (rows : List (String × ℕ)) (tally : Tally)
    → (count_groups rows tally).counts status ≡ tally.counts status + weight (reads_as status) rows
unfolding count_groups weight
count_groups-counts status [] tally = omega arith
count_groups-counts status ((raw_status, n) ∷ rows) tally =
    let reading = normalize_lifecycle_status raw_status in
    omega (
      arith,
      count_groups-counts status rows (count_reading reading n tally),
      count_reading-counts status reading n tally,
    )

count_groups-normalized :
    (rows : List (String × ℕ)) (tally : Tally)
    → (count_groups rows tally).normalized_status_count
      ≡ tally.normalized_status_count + weight reads_normalized rows
unfolding count_groups weight
count_groups-normalized [] tally = omega arith
count_groups-normalized ((raw_status, n) ∷ rows) tally =
    let reading = normalize_lifecycle_status raw_status in
    omega (
      arith,
      count_groups-normalized rows (count_reading reading n tally),
      count_reading-normalized reading n tally,
    )

count_groups-unknown :
    (rows : List (String × ℕ)) (tally : Tally)
    → (count_groups rows tally).unknown_status_count
      ≡ tally.unknown_status_count + weight reads_unknown rows
unfolding count_groups weight
count_groups-unknown [] tally = omega arith
count_groups-unknown ((raw_status, n) ∷ rows) tally =
    let reading = normalize_lifecycle_status raw_status in
    omega (
      arith,
      count_groups-unknown rows (count_reading reading n tally),
      count_reading-unknown reading n tally,
    )

-- Each state is counted under one of the five statuses.
sum_states_lem :
    (states : List IntakeReviewState)
    → sum_counts (λ status. states_with (reads_as status) states) ≡ length states
unfolding count same_status
sum_states_lem [] = omega arith
sum_states_lem (x ∷ states) = ground (arith, sum_states_lem states)

state_summary-counts :
    (status : Status) (states : List IntakeReviewState) (total_events : ℕ)
    → (state_summary states total_events).counts_by_status status
      ≡ states_with (reads_as status) states
unfolding state_summary
state_summary-counts status states total_events = omega (
  arith,
  count_groups-counts status (group_by_status states) no_tally,
  weight-group_by_status (reads_as status) states,
)

-- The summary loops over the groups of equal stored texts, and counts as if it went over the states one
-- by one: under each status the states whose text is read as that status, whichever the texts are; in
-- the total all states; and the states whose text was normalized, and whose text is unknown.
pub state_summary_lem :
    (status : Status) (states : List IntakeReviewState) (total_events : ℕ)
    → let summary = state_summary states total_events in
      (summary.counts_by_status status ≡ states_with (reads_as status) states)
      × (summary.total_states ≡ length states)
      × (summary.normalized_status_count ≡ states_with reads_normalized states)
      × (summary.unknown_status_count ≡ states_with reads_unknown states)
unfolding state_summary
state_summary_lem status states total_events = (
  state_summary-counts status states total_events,
  ap sum_counts (fun_ext λ status. state_summary-counts status states total_events)
      ∙ sum_states_lem states,
  omega (
    arith,
    count_groups-normalized (group_by_status states) no_tally,
    weight-group_by_status reads_normalized states,
  ),
  omega (
    arith,
    count_groups-unknown (group_by_status states) no_tally,
    weight-group_by_status reads_unknown states,
  ),
)
