-- ===== src/Triage/Score.antt =====
-- The bounds of a triage score, and how it depends on the status of the review.
use procore_intake_bridge.Base.{ℕ, ◌+◌, ◌≤◌, Bool, true, false, Option, List, ◌++◌, arith, ◌<◌, ◌≡◌}
use procore_intake_bridge.Base.Int.{
  ℤ, pos, ◌+ℤ◌, ◌≤ℤ◌, pos_part, neg_part, +ℤ_parts, +ℤ_mono, ltb_ℤ,
}
use procore_intake_bridge.Models.{Instant, IntakeReviewState}
use procore_intake_bridge.Models.Settings.{Settings}
use procore_intake_bridge.Triage.Vocabulary.{Tool}
use procore_intake_bridge.Triage.Context.{AttachmentSummary, SourceContext}
use procore_intake_bridge.Triage.Signals.{
  Signal, if_signal, lifecycle_signal, state_status, is_unreviewed, is_recent, other_signals,
  compute_triage_signals, compute_triage_priority_score, is_older,
}
use procore_intake_bridge.Lifecycle.Vocabulary.{
  Status, new, in_review, reviewed, needs_follow_up, ignored,
}

-- A score that is at least -`low` and at most `high`.
abbrev IsWithin : ℕ → ℕ → ℤ → Type 0
IsWithin low high score =
    (neg_part score ≤ pos_part score + low) × (pos_part score ≤ neg_part score + high)

-- How urgent a status is.
abbrev pub urgency : Status → ℕ
urgency needs_follow_up = 4
urgency new = 3
urgency in_review = 2
urgency reviewed = 1
urgency ignored = 0

if_signal_mono :
    (flag : Bool) (s : Signal) (xs ys : List Signal)
    → compute_triage_priority_score xs ≤ℤ compute_triage_priority_score ys
    → compute_triage_priority_score (if_signal flag s ++ xs)
      ≤ℤ compute_triage_priority_score (if_signal flag s ++ ys)
unfolding compute_triage_priority_score
if_signal_mono true s xs ys h = +ℤ_mono s.weight s.weight _ _ (omega arith) h
if_signal_mono false s xs ys h = h

if_signal_raises :
    (flag : Bool) (s : Signal) (xs : List Signal)
    → pos 0 ≤ℤ s.weight
    → compute_triage_priority_score xs ≤ℤ compute_triage_priority_score (if_signal flag s ++ xs)
unfolding compute_triage_priority_score
if_signal_raises true s xs h =
    omega (arith, h, +ℤ_parts s.weight (compute_triage_priority_score xs))
if_signal_raises false s xs h = omega arith

module _ (received : Option Instant) (tool : Tool) (attachments : Option AttachmentSummary)
    (source : Option SourceContext) (settings : Settings) (now : Instant) where
  abbrev others : Bool → ℤ
  others unreviewed =
      compute_triage_priority_score
        (other_signals received tool unreviewed attachments source settings now)

  unreviewed_raises : others false ≤ℤ others true
  unfolding other_signals
  unreviewed_raises =
      if_signal_mono (is_recent received settings.triage_queue_recent_hours now) _ _ _ (
        if_signal_raises (is_older received settings.triage_queue_older_than_hours now) _ _
          (omega arith))

  urgency_lem :
      (less more : Status)
      → urgency less < urgency more
      → ltb_ℤ
          ((lifecycle_signal less).weight +ℤ others (is_unreviewed less))
          ((lifecycle_signal more).weight +ℤ others (is_unreviewed more))
        ≡ true
  unfolding lifecycle_signal
  urgency_lem less more h = ground (
    arith,
    h,
    unreviewed_raises,
    +ℤ_parts (lifecycle_signal less).weight (others (is_unreviewed less)),
    +ℤ_parts (lifecycle_signal more).weight (others (is_unreviewed more)),
  )

  -- Where the signals of the review are included, a record whose status is more urgent has a higher
  -- score than it would have with a less urgent one, all else being equal: a status that needs a
  -- follow-up is the most urgent, then come new, in review, reviewed and ignored.
  pub score-urgency :
      (less more : Option IntakeReviewState)
      → settings.triage_queue_include_lifecycle ≡ true
      → urgency (state_status less) < urgency (state_status more)
      → let score : Option IntakeReviewState → ℤ = λ state.
        compute_triage_priority_score
          (compute_triage_signals received tool state attachments source settings now) in
        ltb_ℤ (score less) (score more) ≡ true
  unfolding compute_triage_signals compute_triage_priority_score
  score-urgency less more included h =
      simp included (urgency_lem (state_status less) (state_status more) h)
