-- ===== src/EventQueue/Process.antt =====
-- `process_webhook_event_once` of app/services/event_queue.py.
use procore_intake_bridge.Base.{
  ℕ, String, Bool, true, false, ◌&&◌, not, Option, none, some, [], ◌∷◌, leb, ◌==◌, if◌then◌else◌,
}
use procore_intake_bridge.Models.{Instant, mock, DmsaConnection, SyncProfile, WebhookEvent}
use procore_intake_bridge.Models.Settings.{Settings}
use procore_intake_bridge.Exceptions.{
  Exception, lookup_error, event_locked, runtime_error, other, type_name, Result, returned, raised,
}
use procore_intake_bridge.Database.{Tables, Database}
use procore_intake_bridge.Database.Writes.{find_event, modify_event}
use procore_intake_bridge.Polling.{IntakeSync}
use procore_intake_bridge.Polling.Profiles.{has_active_lock, sanitize_error_code}
use procore_intake_bridge.Polling.Run.{RunStatus, SyncProfileRunResult, run_sync_profile_once}
use procore_intake_bridge.EventQueue.Events.{
  is_queued, is_relevant, find_mapping, link_event, mark_processing, mark_processed, mark_skipped,
  mark_failed, mark_attempt_failed, acquire_event_lock, release_event_lock,
  processing_failure_message,
}

pub data EventOutcome : Type 0 where
  processed skipped failed dry_run : EventOutcome

pub record EventProcessingResult : Type 0 where
  pub webhook_event_id : ℕ
  pub status : EventOutcome
  pub sync_profile_id : Option ℕ
  pub sync_status : Option RunStatus
  pub record_count : ℕ
  pub error_code : Option String
  pub message : String

-- A result with no sync behind it.
unfoldable pub plain_result : ℕ → EventOutcome → Option ℕ → String → String → EventProcessingResult
plain_result i status profile_id error_code message = record {
  webhook_event_id = i;
  status = status;
  sync_profile_id = profile_id;
  sync_status = none;
  record_count = 0;
  error_code = some error_code;
  message = message;
}

unfoldable pub synced_result :
    ℕ → EventOutcome → ℕ → SyncProfileRunResult → String → EventProcessingResult
synced_result i status profile_id run message = record {
  webhook_event_id = i;
  status = status;
  sync_profile_id = some profile_id;
  sync_status = some run.status;
  record_count = run.record_count;
  error_code = none;
  message = message;
}

-- `select(IntakeRecord.id).limit(1)`.
abbrev pub first_record_id : Tables → Option ℕ
first_record_id t = elim t.intake_records [ [] ↦ none | r ∷ rs ↦ some r.id ]

abbrev pub same_id : Option ℕ → Option ℕ → Bool
same_id none none = true
same_id (some a) (some b) = a == b
same_id _ _ = false

abbrev pub has_succeeded : SyncProfileRunResult → Bool
has_succeeded r = elim r.status [ RunStatus.succeeded ↦ true | _ ↦ false ]

module _ (db : Database) (intake : IntakeSync db) (settings : Settings) where
  open db use {Session, tables, commit, rollback}

  -- A change of the row of the event that a dry run leaves out, and its commit.
  unfoldable pub mark_unless_dry : Bool → ℕ → (WebhookEvent → WebhookEvent) → Session → Session
  mark_unless_dry dry i mark s = if dry then s else commit (modify_event db i mark s)

  unfoldable pub finish_dry_event :
      ℕ
      → ℕ
      → Option ℕ
      → Result SyncProfileRunResult
      → Session
      → Result EventProcessingResult × Session
  finish_dry_event i profile_id before (returned run) s =
      if same_id (first_record_id (tables s)) before
      then (
        returned (
            synced_result i EventOutcome.dry_run profile_id run
              "Event processing dry run completed without state changes."),
        s,
      )
      else (raised (other "AssertionError" ""), s)
  finish_dry_event i profile_id before (raised e) s = (raised e, s)

  -- The `except` clause, and the `finally` after it.
  unfoldable pub fail_event :
      ℕ → ℕ → Instant → Exception → Session → Result EventProcessingResult × Session
  fail_event i profile_id now e s =
      let s1 = commit (
        modify_event db i (mark_attempt_failed settings.event_max_attempts now (type_name e))
          (rollback s)) in
      (
        returned (
            plain_result i EventOutcome.failed (some profile_id)
              (sanitize_error_code "EventProcessingError" (type_name e))
              processing_failure_message),
        release_event_lock db i s1,
      )

  -- The rest of the `try` after the run of the profile, and its `except` and `finally`. The commit in the
  -- `try` is assumed to succeed; the `except` would catch its failure.
  unfoldable pub finish_event :
      ℕ
      → ℕ
      → Instant
      → Result SyncProfileRunResult
      → Session
      → Result EventProcessingResult × Session
  finish_event i profile_id now (returned run) s =
      if has_succeeded run
      then (
        returned (
            synced_result i EventOutcome.processed profile_id run
              "Event processed through the fixture sync profile."),
        release_event_lock db i (commit (modify_event db i (mark_processed now) s)),
      )
      else fail_event i profile_id now (runtime_error "Fixture sync profile run failed.") s
  finish_event i profile_id now (raised e) s = fail_event i profile_id now e s

  unfoldable pub process_locked :
      ℕ → ℕ → Instant → Bool → Session → Result EventProcessingResult × Session
  process_locked i profile_id now false s =
      (raised (event_locked "Webhook event lock could not be acquired."), s)
  process_locked i profile_id now true s =
      let s1 = commit (modify_event db i mark_processing s) in
      let (run, s2) =
        run_sync_profile_once db intake settings profile_id (some mock) false false now none s1 in
      finish_event i profile_id now run s2

  unfoldable pub process_linked :
      ℕ → ℕ → Bool → Instant → Session → Result EventProcessingResult × Session
  process_linked i profile_id true now s =
      let (run, s1) =
        run_sync_profile_once db intake settings profile_id (some mock) true false now none s in
      finish_dry_event i profile_id (first_record_id (tables s)) run s1
  process_linked i profile_id false now s =
      let (acquired, s1) = acquire_event_lock db settings i settings.event_worker_id now s in
      process_locked i profile_id now acquired s1

  unfoldable pub process_mapped :
      ℕ
      → Option (DmsaConnection × SyncProfile)
      → Bool
      → Instant
      → Instant
      → Session
      → Result EventProcessingResult × Session
  process_mapped i none dry now clock s = (
    returned (
        plain_result i EventOutcome.skipped none "NoMatchingSyncProfile"
          "No enabled mock sync profile matches this event."),
    mark_unless_dry dry i (mark_skipped clock "NoMatchingSyncProfile") s,
  )
  process_mapped i (some (c, p)) dry now clock s =
      process_linked i p.id dry now (modify_event db i (link_event c.id p.id) s)

  -- The tests on the event, in the order of the source.
  unfoldable pub process_found :
      WebhookEvent
      → Bool
      → Bool
      → Instant
      → Instant
      → Session
      → Result EventProcessingResult × Session
  process_found e force dry now clock s =
      if not (is_queued e.processing_status) && not force
      then (
        returned (
            plain_result e.id EventOutcome.skipped e.sync_profile_id "EventNotQueued"
              "Event is not queued; replay or force is required."),
        s,
      )
      else if has_active_lock e.locked_at now settings.event_lock_timeout_minutes
      then (raised (event_locked "Webhook event already has an active lock."), s)
      else if leb settings.event_max_attempts e.failure_count
      then (
        returned (
            plain_result e.id EventOutcome.failed e.sync_profile_id "MaxAttemptsExceeded"
              "Event reached the configured maximum processing attempts."),
        mark_unless_dry dry e.id (mark_failed "MaxAttemptsExceeded") s,
      )
      else if not (is_relevant e.resource_type)
      then (
        returned (
            plain_result e.id EventOutcome.skipped none "UnknownResourceType"
              "Unknown resource type was safely skipped."),
        mark_unless_dry dry e.id (mark_skipped clock "UnknownResourceType") s,
      )
      else process_mapped e.id
          (find_mapping e.procore_company_id e.procore_project_id e.resource_type (tables s)) dry
          now clock s

  unfoldable pub process_webhook_event_once :
      ℕ → Bool → Bool → Instant → Instant → Session → Result EventProcessingResult × Session
  process_webhook_event_once i force dry now clock s = elim (find_event i (tables s)) [
    | none ↦ (raised (lookup_error "Webhook event not found."), s)
    | some e ↦ process_found e force dry now clock s
  ]
