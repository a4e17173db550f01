-- ===== src/Lifecycle/States.antt =====
-- app/services/intake_lifecycle.py: the repair of legacy rows and get_or_create_lifecycle_state.
use procore_intake_bridge.Base.{
  ℕ, String, Bool, not, Option, none, some, List, [], ◌∷◌, ◌++◌, ◌==◌, if◌then◌else◌, find_row,
  update_row,
}
use procore_intake_bridge.Models.{IntakeRecord, IntakeReviewState, IntakeReviewLifecycleEvent}
use procore_intake_bridge.Models.Settings.{Settings}
use procore_intake_bridge.Exceptions.{lifecycle_blocked, lifecycle_error, Result, returned, raised}
use procore_intake_bridge.Database.{Tables, Database}
use procore_intake_bridge.Lifecycle.Vocabulary.{
  status_value, reason_value, raw_is, legacy_status_by, legacy_reason_by,
  normalize_lifecycle_status,
}
use procore_intake_bridge.Lifecycle.Views.{StateView, state_view, ensure_enabled}
use procore_intake_bridge.Lifecycle.Texts.{Patterns, is_unsafe_response}

-- The value of a column after its repair.
unfoldable pub repaired_status : String → String
repaired_status value = elim (legacy_status_by (raw_is value)) [
  | none ↦ value
  | some mapped ↦ status_value mapped
]

unfoldable pub repaired_reason : String → String
repaired_reason value = elim (legacy_reason_by (raw_is value)) [
  | none ↦ value
  | some mapped ↦ reason_value mapped
]

abbrev pub repaired_optional : Option String → Option String
repaired_optional none = none
repaired_optional (some value) = some (repaired_reason value)

unfoldable pub repair_state : IntakeReviewState → IntakeReviewState
unfolding repaired_status repaired_reason
repair_state state = record state {
  status = repaired_status state.status;
  current_reason_code = repaired_optional state.current_reason_code;
}

unfoldable pub repair_event : IntakeReviewLifecycleEvent → IntakeReviewLifecycleEvent
unfolding repaired_status repaired_reason
repair_event event = record event {
  from_status = repaired_status event.from_status;
  to_status = repaired_status event.to_status;
  reason_code = repaired_reason event.reason_code;
}

-- The rows of one intake record, which `normalize_legacy_lifecycle_data` repairs.
unfoldable pub repair_events : ℕ → List IntakeReviewLifecycleEvent → List IntakeReviewLifecycleEvent
repair_events i [] = []
repair_events i (e ∷ es) =
    (if e.intake_record_id == i then repair_event e else e) ∷ repair_events i es

abbrev pub find_state : ℕ → Tables → Option IntakeReviewState
find_state i t = find_row (λ (x : IntakeReviewState). x.intake_record_id) i t.review_states

abbrev pub update_state : ℕ → (IntakeReviewState → IntakeReviewState) → Tables → Tables
update_state i f t = record t {
  review_states = update_row (λ (x : IntakeReviewState). x.intake_record_id) i f t.review_states;
}

unfoldable pub normalize_legacy_lifecycle_data : ℕ → Tables → Tables
unfolding repair_state repair_events
normalize_legacy_lifecycle_data i t = record (update_state i repair_state t) {
  lifecycle_events = repair_events i t.lifecycle_events;
}

-- A new row, with the key that the database gives it and the defaults of its columns.
unfoldable pub new_state : ℕ → ℕ → String → IntakeReviewState
new_state key i status = record {
  id = key;
  intake_record_id = i;
  status = status;
  current_reason_code = none;
  current_reason_summary_sanitized = none;
  actor_hash = none;
  actor_label_masked = none;
  event_count = 0;
}

unfoldable pub canonical_state : IntakeReviewState → IntakeReviewState
canonical_state state = record state {
  status = status_value (normalize_lifecycle_status state.status).0;
}

abbrev pub add_state : IntakeReviewState → Tables → Tables
add_state state t = record t { review_states = t.review_states ++ (state ∷ []) }

module _ (db : Database) (has_tables : db.Session → Bool) (settings : Settings) where
  open db use {Session, tables, write, commit}

  -- The state of a record that exists: a new one, or the stored one with its rows repaired.
  unfoldable pub get_or_create_state : ℕ → ℕ → Session → IntakeReviewState × Session
  get_or_create_state i key s = elim (find_state i (tables s)) [
    | none ↦
        let state = new_state key i settings.intake_lifecycle_default_status in
        (state, write (add_state state (tables s)) s)
    | some state ↦ (
      repair_state (canonical_state state),
      write (normalize_legacy_lifecycle_data i (update_state i canonical_state (tables s))) s,
    )
  ]

  unfoldable pub get_or_create_lifecycle_state :
      ℕ → ℕ → Session → Result IntakeReviewState × Session
  get_or_create_lifecycle_state i key s = elim (ensure_enabled settings) [
    | some e ↦ (raised e, s)
    | none ↦
        if not (has_tables s)
        then (raised (lifecycle_blocked "Local lifecycle tables are not initialized."), s)
        else elim (find_row (λ (r : IntakeRecord). r.id) i (tables s).intake_records) [
          | none ↦ (raised (lifecycle_error "Local intake record not found."), s)
          | some r ↦ let (state, s1) = get_or_create_state i key s in (returned state, s1)
        ]
  ]

  -- `get_lifecycle_state`: the commit comes before the response is checked.
  unfoldable pub get_lifecycle_state : Patterns → ℕ → ℕ → Session → Result StateView × Session
  get_lifecycle_state patterns i key s =
      let (r, s1) = get_or_create_lifecycle_state i key s in
      elim r [
        | raised e ↦ (raised e, s1)
        | returned state ↦
            let view = state_view patterns state in
            if is_unsafe_response patterns StateView view
            then (raised (lifecycle_blocked "Unsafe lifecycle response was blocked."), commit s1)
            else (returned view, commit s1)
      ]
