-- ===== src/EventQueue/Events.antt =====
-- app/services/event_queue.py: which events a round takes, the mapping of an event to a profile, and
-- the changes of one event's row.
use procore_intake_bridge.Base.{
  ℕ, ◌+◌, String, Bool, true, false, ◌&&◌, ◌||◌, Option, none, some, List, [], ◌∷◌, ltb, leb, ◌==◌,
  if◌then◌else◌, select, take, str_eq,
}
use procore_intake_bridge.Base.Sort.{sort}
use procore_intake_bridge.Models.{
  Instant, ResourceType, rfi, submittal, ProcessingStatus, DmsaConnection, SyncProfile,
  WebhookEvent,
}
use procore_intake_bridge.Models.Settings.{Settings}
use procore_intake_bridge.Database.{Tables, Database}
use procore_intake_bridge.Database.Writes.{find_event, modify_event}
use procore_intake_bridge.Polling.Profiles.{lock_is_free, sanitize_error_code}
use procore_intake_bridge.Polling.Run.{is_live}

unfoldable pub is_queued : ProcessingStatus → Bool
is_queued ProcessingStatus.queued = true
is_queued _ = false

unfoldable pub is_processing : ProcessingStatus → Bool
is_processing ProcessingStatus.processing = true
is_processing _ = false

unfoldable pub is_force_processable : ProcessingStatus → Bool
is_force_processable ProcessingStatus.queued = true
is_force_processable ProcessingStatus.skipped = true
is_force_processable ProcessingStatus.failed = true
is_force_processable _ = false

-- ORDER BY received_at, id.
abbrev pub is_before : WebhookEvent → WebhookEvent → Bool
is_before a b = ltb a.received_at b.received_at || (a.received_at == b.received_at && leb a.id b.id)

unfoldable pub is_ready : Instant → WebhookEvent → Bool
is_ready now e = is_queued e.processing_status && leb e.available_at now

unfoldable pub is_force_ready : Instant → WebhookEvent → Bool
is_force_ready now e = is_force_processable e.processing_status && leb e.available_at now

unfoldable pub find_queued_events : ℕ → Instant → Tables → List WebhookEvent
unfolding is_ready is_queued sort select
find_queued_events limit now t =
    take limit (sort is_before (select (is_ready now) t.webhook_events))

unfoldable pub find_force_processable_events : ℕ → Instant → Tables → List WebhookEvent
unfolding is_force_ready is_force_processable sort select
find_force_processable_events limit now t =
    take limit (sort is_before (select (is_force_ready now) t.webhook_events))

-- `resource_type in {"rfi", "submittal"}`.
unfoldable pub is_relevant : ResourceType → Bool
is_relevant rfi = true
is_relevant submittal = true
is_relevant _ = false

unfoldable pub supports : ResourceType → SyncProfile → Bool
supports rfi p = p.sync_rfis
supports submittal p = p.sync_submittals
supports _ p = false

unfoldable pub find_connection : ℕ → List DmsaConnection → Option DmsaConnection
find_connection i [] = none
find_connection i (c ∷ cs) = if c.id == i then some c else find_connection i cs

-- The filter on the company of the joined connection.
unfoldable pub company_matches : Option String → DmsaConnection → Bool
company_matches none c = true
company_matches (some company) c = str_eq c.procore_company_id company

unfoldable pub profile_matches : Option String → String → SyncProfile → DmsaConnection → Bool
unfolding company_matches
profile_matches company project p c =
    str_eq p.procore_project_id project
    && (p.enabled && ((if is_live p.mode then false else true) && company_matches company c))

-- The first profile of the join, in the order of ids, that matches and syncs the resource type.
unfoldable pub first_mapping :
    Option String
    → String
    → ResourceType
    → List DmsaConnection
    → List SyncProfile
    → Option (DmsaConnection × SyncProfile)
first_mapping company project resource cs [] = none
first_mapping company project resource cs (p ∷ ps) =
    let rest = first_mapping company project resource cs ps in
    elim (find_connection p.connection_id cs) [
      | none ↦ rest
      | some c ↦
          if profile_matches company project p c && supports resource p then some (c, p) else rest
    ]

unfoldable pub find_mapping :
    Option String → Option String → ResourceType → Tables → Option (DmsaConnection × SyncProfile)
find_mapping company none resource t = none
find_mapping company (some project) resource t =
    first_mapping company project resource t.connections t.sync_profiles

unfoldable pub link_event : ℕ → ℕ → WebhookEvent → WebhookEvent
link_event connection_id profile_id e = record e {
  connection_id = some connection_id;
  sync_profile_id = some profile_id;
}

unfoldable pub lock_event : Instant → String → WebhookEvent → WebhookEvent
lock_event now lock_owner e = record e { locked_at = some now; lock_owner = some lock_owner }

unfoldable pub unlock_event : WebhookEvent → WebhookEvent
unlock_event e = record e { locked_at = none; lock_owner = none }

unfoldable pub mark_processing : WebhookEvent → WebhookEvent
mark_processing e = record e { processing_status = ProcessingStatus.processing }

unfoldable pub mark_processed : Instant → WebhookEvent → WebhookEvent
mark_processed now e = record e {
  processing_status = ProcessingStatus.processed;
  processed_at = some now;
  last_error_code = none;
  last_error_message = none;
}

-- `_mark_skipped` reads the clock itself: `clock` is what it reads.
unfoldable pub mark_skipped : Instant → String → WebhookEvent → WebhookEvent
mark_skipped clock error_code e = record e {
  processing_status = ProcessingStatus.skipped;
  processed_at = some clock;
  last_error_code = some error_code;
  last_error_message = some "Event was safely skipped.";
}

unfoldable pub mark_failed : String → WebhookEvent → WebhookEvent
mark_failed error_code e = record e {
  processing_status = ProcessingStatus.failed;
  last_error_code = some error_code;
  last_error_message = some "Event processing stopped after the configured maximum attempts.";
}

abbrev pub processing_failure_message : String
processing_failure_message =
    "Event processing failed; sensitive details were intentionally omitted."

-- The `except` clause of the processing of an event.
unfoldable pub mark_attempt_failed : ℕ → Instant → String → WebhookEvent → WebhookEvent
mark_attempt_failed max_attempts now error_name e = record e {
  failure_count = e.failure_count + 1;
  processing_status =
      if leb max_attempts (e.failure_count + 1)
      then ProcessingStatus.failed
      else ProcessingStatus.queued;
  last_error_code = some (sanitize_error_code "EventProcessingError" error_name);
  last_error_message = some processing_failure_message;
  available_at = now;
}

unfoldable pub mark_replayed : Instant → WebhookEvent → WebhookEvent
mark_replayed now e = record e {
  processing_status = ProcessingStatus.queued;
  available_at = now;
  processed_at = none;
  failure_count = 0;
  last_error_code = none;
  last_error_message = none;
  locked_at = none;
  lock_owner = none;
}

module _ (db : Database) where
  open db use {Session, tables, commit}

  -- The UPDATE … WHERE of the lock, its commit, and whether one row was changed.
  unfoldable pub acquire_event_lock : Settings → ℕ → String → Instant → Session → Bool × Session
  acquire_event_lock settings i lock_owner now s = elim (find_event i (tables s)) [
    | none ↦ (false, commit s)
    | some e ↦
        if lock_is_free e.locked_at now settings.event_lock_timeout_minutes
        then (true, commit (modify_event db i (lock_event now lock_owner) s))
        else (false, commit s)
  ]

  unfoldable pub release_event_lock : ℕ → Session → Session
  release_event_lock i s = commit (modify_event db i unlock_event s)

  unfoldable pub replay_webhook_event : ℕ → Instant → Session → Session
  replay_webhook_event i now s = commit (modify_event db i (mark_replayed now) s)
