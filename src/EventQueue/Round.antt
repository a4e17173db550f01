-- ===== src/EventQueue/Round.antt =====
-- `run_event_queue_once` of app/services/event_queue.py: one processing of each selected event.
pub mod Total
pub mod Sound
use procore_intake_bridge.Base.{
  ℕ, ◌+◌, Bool, true, false, Option, none, some, List, [], ◌∷◌, length, count, if◌then◌else◌,
}
use procore_intake_bridge.Models.{Instant, WebhookEvent}
use procore_intake_bridge.Models.Settings.{Settings}
use procore_intake_bridge.Exceptions.{Exception, event_locked, Result, returned, raised}
use procore_intake_bridge.Database.{Database}
use procore_intake_bridge.Polling.{IntakeSync}
use procore_intake_bridge.EventQueue.Events.{find_queued_events, find_force_processable_events}
use procore_intake_bridge.EventQueue.Process.{
  EventOutcome, EventProcessingResult, plain_result, process_webhook_event_once,
}

pub record EventQueueRunResult : Type 0 where
  pub queued_count : ℕ
  pub attempted_count : ℕ
  pub processed_count : ℕ
  pub skipped_count : ℕ
  pub failed_count : ℕ
  pub is_dry_run : Bool
  pub results : List EventProcessingResult

-- The `except EventLockedError` clause of the loop: any other exception goes on.
unfoldable pub skip_locked :
    WebhookEvent → Result EventProcessingResult → Result EventProcessingResult
skip_locked e (returned result) = returned result
skip_locked e (raised (event_locked m)) = returned (
    plain_result e.id EventOutcome.skipped e.sync_profile_id "EventLocked"
      "Event has an active processing lock.")
skip_locked e (raised x) = raised x

unfoldable pub is_processed : EventProcessingResult → Bool
is_processed r = elim r.status [ EventOutcome.processed ↦ true | _ ↦ false ]

unfoldable pub is_skipped : EventProcessingResult → Bool
is_skipped r = elim r.status [ EventOutcome.skipped ↦ true | _ ↦ false ]

unfoldable pub is_failed : EventProcessingResult → Bool
is_failed r = elim r.status [ EventOutcome.failed ↦ true | _ ↦ false ]

unfoldable pub queue_summary : ℕ → Bool → List EventProcessingResult → EventQueueRunResult
unfolding is_processed is_skipped is_failed count
queue_summary queued dry results = record {
  queued_count = queued;
  attempted_count = length results;
  processed_count = count is_processed results;
  skipped_count = count is_skipped results;
  failed_count = count is_failed results;
  is_dry_run = dry;
  results = results;
}

abbrev pub prepend {ℓ} : {A : Type ℓ} → A → Result (List A) → Result (List A)
prepend a (returned rest) = returned (a ∷ rest)
prepend a (raised e) = raised e

abbrev pub summarised : ℕ → Bool → Result (List EventProcessingResult) → Result EventQueueRunResult
summarised queued dry (returned results) = returned (queue_summary queued dry results)
summarised queued dry (raised e) = raised e

module _ (db : Database) (intake : IntakeSync db) (settings : Settings) where
  open db use {Session, tables}

  -- The body of the loop.
  unfoldable pub run_event :
      Bool
      → Bool
      → Instant
      → Instant
      → WebhookEvent
      → Session
      → Result EventProcessingResult × Session
  run_event force dry now clock e s =
      let (r, s1) = process_webhook_event_once db intake settings e.id force dry now clock s in
      (skip_locked e r, s1)

  -- The loop; an exception that is not caught ends it.
  unfoldable pub run_events :
      Bool
      → Bool
      → Instant
      → Instant
      → List WebhookEvent
      → Session
      → Result (List EventProcessingResult) × Session
  run_events force dry now clock [] s = (returned [], s)
  run_events force dry now clock (e ∷ es) s =
      let (r, s1) = run_event force dry now clock e s in
      let rest = run_events force dry now clock es s1 in
      elim r [ raised x ↦ (raised x, s1) | returned result ↦ (prepend result rest.0, rest.1) ]

  unfoldable pub run_event_queue_once :
      ℕ → Bool → Bool → Instant → Instant → Session → Result EventQueueRunResult × Session
  run_event_queue_once limit dry force now clock s =
      let events =
        if force
        then find_force_processable_events limit now (tables s)
        else find_queued_events limit now (tables s) in
      let (results, s1) = run_events force dry now clock events s in
      (summarised (length events) dry results, s1)
