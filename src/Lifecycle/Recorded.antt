-- ===== src/Lifecycle/Recorded.antt =====
-- What a transition of app/services/intake_lifecycle.py stores, field by field: the row of the state
-- after it, the event of the trail, and the answer.
use procore_intake_bridge.Base.{◌≡◌, ◌+◌, refl, none, some, if◌then◌else◌, str_eq, String, Option}
use procore_intake_bridge.Models.{IntakeReviewState, IntakeReviewLifecycleEvent}
use procore_intake_bridge.Models.Settings.{Settings}
use procore_intake_bridge.Lifecycle.Vocabulary.{status_value, reason_value, reason_summary}
use procore_intake_bridge.Lifecycle.Texts.{
  Patterns, sanitize_lifecycle_value, mask_lifecycle_actor, hash_lifecycle_actor,
}
use procore_intake_bridge.Lifecycle.Transition.{
  TransitionRequest, Stamp, transition_event, transitioned_state, chosen_summary,
}

-- The text of the reason: the request's own, unless it is missing or empty.
abbrev pub reason_text : TransitionRequest → String
reason_text request = elim request.reason_summary [
  | none ↦ reason_summary request.reason_code
  | some text ↦ if str_eq text "" then reason_summary request.reason_code else text
]

module _ (patterns : Patterns) (settings : Settings) (request : TransitionRequest) where
  abbrev stored_actor_hash : Option String
  stored_actor_hash =
      if settings.intake_lifecycle_hash_actor
      then hash_lifecycle_actor patterns (some request.actor_label)
      else none

  abbrev stored_actor_mask : Option String
  stored_actor_mask =
      if settings.intake_lifecycle_mask_actor
      then mask_lifecycle_actor patterns request.actor_label
      else none

  -- The row after a request, beside the row before it.
  pub record IsMoved (before after : IntakeReviewState) : Type 0 where
    pub same_id : after.id ≡ before.id
    pub same_record : after.intake_record_id ≡ before.intake_record_id
    pub status : after.status ≡ status_value request.to_status
    pub reason : after.current_reason_code ≡ some (reason_value request.reason_code)
    pub summary :
        after.current_reason_summary_sanitized
        ≡ some (sanitize_lifecycle_value patterns (reason_text request))
    pub actor_hash : after.actor_hash ≡ stored_actor_hash
    pub actor_mask : after.actor_label_masked ≡ stored_actor_mask
    pub counted : after.event_count ≡ before.event_count + 1

  -- The event of a request, beside the row before it.
  pub record IsRecorded (before : IntakeReviewState) (stamp : Stamp)
      (event : IntakeReviewLifecycleEvent) : Type 0 where
    pub id : event.id ≡ stamp.event_key
    pub of_record : event.intake_record_id ≡ before.intake_record_id
    pub from_status : event.from_status ≡ before.status
    pub to_status : event.to_status ≡ status_value request.to_status
    pub reason : event.reason_code ≡ reason_value request.reason_code
    pub summary :
        event.reason_summary_sanitized ≡ sanitize_lifecycle_value patterns (reason_text request)
    pub actor_hash : event.actor_hash ≡ stored_actor_hash
    pub actor_mask : event.actor_label_masked ≡ stored_actor_mask
    pub request_hash : event.request_id_hash ≡ hash_lifecycle_actor patterns request.request_id
    pub source : event.source ≡ "local_review_workspace"
    pub created_at : event.created_at ≡ stamp.created_at

  pub transitioned_state-IsMoved :
      (state : IntakeReviewState)
      → IsMoved state (transitioned_state patterns settings request state)
  unfolding transitioned_state chosen_summary
  transitioned_state-IsMoved state = record {
    same_id = refl;
    same_record = refl;
    status = refl;
    reason = refl;
    summary = refl;
    actor_hash = refl;
    actor_mask = refl;
    counted = refl;
  }

  pub transition_event-IsRecorded :
      (state : IntakeReviewState) (stamp : Stamp)
      → IsRecorded state stamp (transition_event patterns settings state request stamp)
  unfolding transition_event chosen_summary
  transition_event-IsRecorded state stamp = record {
    id = refl;
    of_record = refl;
    from_status = refl;
    to_status = refl;
    reason = refl;
    summary = refl;
    actor_hash = refl;
    actor_mask = refl;
    request_hash = refl;
    source = refl;
    created_at = refl;
  }
