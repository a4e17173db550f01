-- ===== src/Lifecycle/Views.antt =====
-- app/services/intake_lifecycle.py: the settings' guards, and the views of a state and of an event.
use procore_intake_bridge.Base.{
  ℕ, String, Bool, ◌&&◌, ◌||◌, not, Option, none, some, if◌then◌else◌, str_eq,
}
use procore_intake_bridge.Models.{Instant, IntakeReviewState, IntakeReviewLifecycleEvent}
use procore_intake_bridge.Models.Settings.{Settings}
use procore_intake_bridge.Exceptions.{Exception, lifecycle_blocked}
use procore_intake_bridge.Lifecycle.Vocabulary.{
  Status, ReasonCode, demo_placeholder_reason, normalize_lifecycle_status,
  normalize_lifecycle_reason_code,
}
use procore_intake_bridge.Lifecycle.Texts.{Patterns, sanitize_lifecycle_value}

unfoldable pub safe_configuration : Settings → Bool
safe_configuration settings = not (
    settings.intake_lifecycle_expose_raw_payloads || settings.intake_lifecycle_expose_source_ids
    || settings.intake_lifecycle_expose_private_paths)

-- What `_ensure_enabled` raises.
unfoldable pub ensure_enabled : Settings → Option Exception
unfolding safe_configuration
ensure_enabled settings =
    if not settings.intake_lifecycle_enabled
    then some (lifecycle_blocked "Local intake lifecycle is disabled.")
    else if settings.intake_lifecycle_fail_closed && not (safe_configuration settings)
    then some (lifecycle_blocked "Unsafe lifecycle exposure settings were blocked.")
    else none

pub record StateView : Type 0 where
  pub intake_record_id : ℕ
  pub status : Status
  pub current_reason_code : Option ReasonCode
  pub current_reason_summary_sanitized : Option String
  pub actor_hash : Option String
  pub actor_label_masked : Option String
  pub event_count : ℕ

pub record EventItem : Type 0 where
  pub event_id : ℕ
  pub from_status : Status
  pub to_status : Status
  pub reason_code : ReasonCode
  pub reason_summary_sanitized : String
  pub actor_hash : Option String
  pub actor_label_masked : Option String
  pub request_id_hash : Option String
  pub source : String
  pub created_at : Instant

abbrev pub or_placeholder : Option ReasonCode → ReasonCode
or_placeholder none = demo_placeholder_reason
or_placeholder (some reason) = reason

module _ (patterns : Patterns) where
  abbrev pub sanitize_optional : Option String → Option String
  sanitize_optional none = none
  sanitize_optional (some text) =
      if str_eq text "" then none else some (sanitize_lifecycle_value patterns text)

  unfoldable pub state_view : IntakeReviewState → StateView
  state_view state = record {
    intake_record_id = state.intake_record_id;
    status = (normalize_lifecycle_status state.status).0;
    current_reason_code = normalize_lifecycle_reason_code state.current_reason_code;
    current_reason_summary_sanitized = sanitize_optional state.current_reason_summary_sanitized;
    actor_hash = state.actor_hash;
    actor_label_masked = state.actor_label_masked;
    event_count = state.event_count;
  }

  unfoldable pub event_item : IntakeReviewLifecycleEvent → EventItem
  event_item event = record {
    event_id = event.id;
    from_status = (normalize_lifecycle_status event.from_status).0;
    to_status = (normalize_lifecycle_status event.to_status).0;
    reason_code = or_placeholder (normalize_lifecycle_reason_code (some event.reason_code));
    reason_summary_sanitized = sanitize_lifecycle_value patterns event.reason_summary_sanitized;
    actor_hash = event.actor_hash;
    actor_label_masked = event.actor_label_masked;
    request_id_hash = event.request_id_hash;
    source = sanitize_lifecycle_value patterns event.source;
    created_at = event.created_at;
  }
