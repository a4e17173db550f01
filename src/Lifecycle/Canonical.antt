-- ===== src/Lifecycle/Canonical.antt =====
-- How app/services/intake_lifecycle.py reads stored statuses.
use procore_intake_bridge.Base.{
  ◌≡◌, ◌⊎◌, inl, inr, String, Bool, true, false, Option, none, some, Option-cases, arith, refl, sym,
  ◌∙◌, Bool-cases,
}
use procore_intake_bridge.Text.{strip, folds_to}
use procore_intake_bridge.Lifecycle.Vocabulary.{
  Status, Normalization, new, in_review, reviewed, needs_follow_up, ignored, status_value,
  status_by, legacy_status_by, raw_is, normalize_lifecycle_status, legacy_status_normalized,
  unknown_status_needs_review,
}

-- The text is a word, up to the white space around it and to upper case.
abbrev pub Says : String → String → Type 0
Says text word = folds_to (strip text) word ≡ true

-- The text is none of the five statuses, and neither of the two old labels.
pub record IsForeign (text : String) : Type 0 where
  pub not_status : (status : Status) → ¬ Says text (status_value status)
  pub not_blocked : ¬ Says text "blocked"
  pub not_completed : ¬ Says text "completed"

-- The reading of a text: a status by its own name; the old label of two, which is reported; and for any
-- other text the status that asks for a follow-up, reported as unknown.
abbrev pub IsReading : String → Status × Option Normalization → Type 0
IsReading text (status, none) = Says text (status_value status)
IsReading text (status, some legacy_status_normalized) =
    (Says text "blocked" × (status ≡ needs_follow_up))
    ⊎ (Says text "completed" × (status ≡ reviewed))
IsReading text (status, some unknown_status_needs_review) =
    IsForeign text × (status ≡ needs_follow_up)

status_by-some :
    (test : String → Bool) (status : Status)
    → status_by test ≡ some status
    → test (status_value status) ≡ true
unfolding status_by
status_by-some test new h = ground (arith, h)
status_by-some test in_review h = ground (arith, h)
status_by-some test reviewed h = ground (arith, h)
status_by-some test needs_follow_up h = ground (arith, h)
status_by-some test ignored h = ground (arith, h)

status_by-none :
    (test : String → Bool)
    → status_by test ≡ none
    → (status : Status) → test (status_value status) ≡ false
unfolding status_by
status_by-none test h new = ground (arith, h)
status_by-none test h in_review = ground (arith, h)
status_by-none test h reviewed = ground (arith, h)
status_by-none test h needs_follow_up = ground (arith, h)
status_by-none test h ignored = ground (arith, h)

-- Every text has its reading. A text that is read as a status without a report is the name of that
-- status, up to the white space around it and to upper case; one that is reported as an old label is
-- "blocked", which asks for a follow-up, or "completed", which is reviewed; one that is reported as
-- unknown is none of these seven words, and asks for a follow-up.
pub normalize_lifecycle_status_lem :
    (text : String) → IsReading text (normalize_lifecycle_status text)
unfolding normalize_lifecycle_status raw_is strip
normalize_lifecycle_status_lem text = elim (Option-cases (status_by (raw_is text))) [
  | inr (status, own) ↦
      rw (own, normalize_lifecycle_status) (status_by-some (raw_is text) status own)
  | inl not_status ↦ elim (Bool-cases (raw_is text "blocked")) [
    | inl blocked ↦
        rw (not_status, blocked, normalize_lifecycle_status, legacy_status_by) (inl (blocked, refl))
    | inr not_blocked ↦ elim (Bool-cases (raw_is text "completed")) [
      | inl completed ↦
          rw (not_status, not_blocked, completed, normalize_lifecycle_status, legacy_status_by)
            (inr (completed, refl))
      | inr not_completed ↦
          rw (not_status, not_blocked, not_completed, normalize_lifecycle_status, legacy_status_by)
            (
              record {
                not_status =
                    λ status says. cc (sym (status_by-none (raw_is text) not_status status) ∙ says);
                not_blocked = λ says. cc (sym not_blocked ∙ says);
                not_completed = λ says. cc (sym not_completed ∙ says);
              },
              refl,
            )
    ]
  ]
]
