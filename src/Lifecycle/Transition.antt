-- ===== src/Lifecycle/Transition.antt =====
-- app/services/intake_lifecycle.py: the check of a transition, and apply_lifecycle_transition.
use procore_intake_bridge.Text.{text_length}
use procore_intake_bridge.Base.{
  ℕ, ◌+◌, String, Bool, ◌&&◌, ◌||◌, not, Option, none, some, ◌++◌, [], ◌∷◌, if◌then◌else◌, str_eq,
  leb, ltb,
}
use procore_intake_bridge.Models.{Instant, IntakeReviewState, IntakeReviewLifecycleEvent}
use procore_intake_bridge.Models.Settings.{Settings}
use procore_intake_bridge.Exceptions.{
  Exception, lifecycle_blocked, lifecycle_error, Result, returned, raised,
}
use procore_intake_bridge.Database.{Tables, Database}
use procore_intake_bridge.Lifecycle.Vocabulary.{
  Status, ReasonCode, status_value, reason_value, status_of, is_allowed, reason_summary,
}
use procore_intake_bridge.Lifecycle.Texts.{
  Patterns, sanitize_lifecycle_value, mask_lifecycle_actor, hash_lifecycle_actor,
  is_unsafe_response,
}
use procore_intake_bridge.Lifecycle.Views.{
  StateView, EventItem, state_view, event_item, ensure_enabled,
}
use procore_intake_bridge.Lifecycle.States.{update_state, get_or_create_lifecycle_state}

pub record TransitionRequest : Type 0 where
  pub to_status : Status
  pub reason_code : ReasonCode
  pub reason_summary : Option String
  pub actor_label : String
  pub request_id : Option String

pub record TransitionResult : Type 0 where
  pub state : StateView
  pub event : EventItem

-- The keys that the database gives to new rows, and its clock.
pub record Stamp : Type 0 where
  pub state_key : ℕ
  pub event_key : ℕ
  pub created_at : Instant

abbrev pub has_text : Option String → Bool
has_text none = Bool.false
has_text (some text) = not (str_eq text "")

abbrev pub add_event : IntakeReviewLifecycleEvent → Tables → Tables
add_event event t = record t { lifecycle_events = t.lifecycle_events ++ (event ∷ []) }

module _ (patterns : Patterns) (settings : Settings) where
  -- What `validate_lifecycle_transition` raises. A request has a reason code of the enum, so that the
  -- test of a missing one never fails.
  unfoldable pub validate_lifecycle_transition : String → Status → ReasonCode → Option Exception
  validate_lifecycle_transition from_status target reason = elim (ensure_enabled settings) [
    | some e ↦ some e
    | none ↦ elim (status_of from_status) [
      | none ↦ some (lifecycle_blocked "Unsupported local lifecycle value.")
      | some source ↦
          if patterns.search_forbidden (status_value target)
            || patterns.search_forbidden (reason_value reason)
          then some (lifecycle_blocked "Forbidden workflow language was blocked.")
          else if not (is_allowed source target)
          then some (lifecycle_error "That local lifecycle transition is not allowed.")
          else none
    ]
  ]

  -- The sanitized summary of a request: its own text, or the one of its reason.
  unfoldable pub chosen_summary : TransitionRequest → String
  chosen_summary request = sanitize_lifecycle_value patterns (elim request.reason_summary [
    | none ↦ reason_summary request.reason_code
    | some text ↦ if str_eq text "" then reason_summary request.reason_code else text
  ])

  unfoldable pub is_unsafe_summary : String → Bool
  is_unsafe_summary summary =
      str_eq summary ""
      || ltb settings.intake_lifecycle_max_reason_length (text_length summary)
      || patterns.search_forbidden summary

  abbrev pub request_actor_hash : TransitionRequest → Option String
  request_actor_hash request =
      if settings.intake_lifecycle_hash_actor
      then hash_lifecycle_actor patterns (some request.actor_label)
      else none

  abbrev pub request_actor_masked : TransitionRequest → Option String
  request_actor_masked request =
      if settings.intake_lifecycle_mask_actor
      then mask_lifecycle_actor patterns request.actor_label
      else none

  unfoldable pub transition_event :
      IntakeReviewState → TransitionRequest → Stamp → IntakeReviewLifecycleEvent
  transition_event state request stamp = record {
    id = stamp.event_key;
    intake_record_id = state.intake_record_id;
    from_status = state.status;
    to_status = status_value request.to_status;
    reason_code = reason_value request.reason_code;
    reason_summary_sanitized = chosen_summary request;
    actor_hash = request_actor_hash request;
    actor_label_masked = request_actor_masked request;
    request_id_hash = hash_lifecycle_actor patterns request.request_id;
    source = "local_review_workspace";
    created_at = stamp.created_at;
  }

  unfoldable pub transitioned_state : TransitionRequest → IntakeReviewState → IntakeReviewState
  transitioned_state request state = record state {
    status = status_value request.to_status;
    current_reason_code = some (reason_value request.reason_code);
    current_reason_summary_sanitized = some (chosen_summary request);
    actor_hash = request_actor_hash request;
    actor_label_masked = request_actor_masked request;
    event_count = state.event_count + 1;
  }

  -- The first refusal of a transition from a state, if there is one.
  unfoldable pub refusal : IntakeReviewState → TransitionRequest → Option Exception
  refusal state request =
      if leb settings.intake_lifecycle_max_events_per_record state.event_count
      then some (lifecycle_blocked "The bounded lifecycle event limit was reached.")
      else elim (validate_lifecycle_transition state.status request.to_status request.reason_code) [
        | some e ↦ some e
        | none ↦
            if has_text request.reason_summary
              && not settings.intake_lifecycle_allow_free_text_notes
            then some (lifecycle_blocked "Free-text lifecycle notes are disabled.")
            else if is_unsafe_summary (chosen_summary request)
            then some (lifecycle_blocked "Unsafe lifecycle reason was blocked.")
            else none
      ]

  abbrev pub transition_result : IntakeReviewState → TransitionRequest → Stamp → TransitionResult
  transition_result state request stamp = record {
    state = state_view patterns (transitioned_state request state);
    event = event_item patterns (transition_event state request stamp);
  }

  module _ (db : Database) (has_tables : db.Session → Bool) where
    open db use {Session, tables, write, commit, rollback}

    -- The body of the `try` once the state is there.
    unfoldable pub transition_from :
        ℕ
        → IntakeReviewState
        → TransitionRequest
        → Stamp
        → Session
        → Result TransitionResult × Session
    transition_from i state request stamp s = elim (refusal state request) [
      | some e ↦ (raised e, s)
      | none ↦
          let s1 =
            write
              (update_state i (transitioned_state request)
                (add_event (transition_event state request stamp) (tables s)))
              s in
          let result = transition_result state request stamp in
          if is_unsafe_response patterns TransitionResult result
          then (raised (lifecycle_blocked "Unsafe lifecycle response was blocked."), s1)
          else (returned result, commit s1)
    ]

    unfoldable pub attempt_transition :
        ℕ → TransitionRequest → Stamp → Session → Result TransitionResult × Session
    attempt_transition i request stamp s =
        let (r, s1) = get_or_create_lifecycle_state db has_tables settings i stamp.state_key s in
        elim r [
          | raised e ↦ (raised e, s1)
          | returned state ↦ transition_from i state request stamp s1
        ]

    -- The `except`: a rollback, and the exception goes on.
    abbrev pub rollback_raised :
        Result TransitionResult × Session → Result TransitionResult × Session
    rollback_raised (returned result, s) = (returned result, s)
    rollback_raised (raised e, s) = (raised e, rollback s)

    unfoldable pub apply_lifecycle_transition :
        ℕ → TransitionRequest → Stamp → Session → Result TransitionResult × Session
    apply_lifecycle_transition i request stamp s =
        rollback_raised (attempt_transition i request stamp s)
