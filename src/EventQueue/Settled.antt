-- ===== src/EventQueue/Settled.antt =====
-- The row of an event after its processing went through the run of its profile.
use procore_intake_bridge.Polling.Profiles.{sanitize_error_code}
use procore_intake_bridge.EventQueue.Process.{fail_event, finish_event, has_succeeded}
use procore_intake_bridge.EventQueue.Events.{
  release_event_lock, unlock_event, mark_attempt_failed, mark_processed, processing_failure_message,
}
use procore_intake_bridge.Database.Writes.{
  find_event, modify_event, tables-modify_event, find_event-update,
}
use procore_intake_bridge.Polling.Run.{SyncProfileRunResult}
use procore_intake_bridge.Models.Settings.{Settings}
use procore_intake_bridge.Exceptions.{Result, returned, raised, Exception, type_name, runtime_error}
use procore_intake_bridge.Polling.{IntakeSync}
use procore_intake_bridge.Models.{Instant, WebhookEvent, ProcessingStatus}
use procore_intake_bridge.Base.{
  ℕ, ◌≡◌, String, ◌+◌, some, if◌then◌else◌, none, leb, ◌∙◌, sym, refl, ap, Bool-cases, inl, inr,
}
use procore_intake_bridge.Database.{Database, committed}

-- The two ends of a processing, as a client of the queue sees the row.
abbrev pub processed_row : Instant → WebhookEvent → WebhookEvent
processed_row now e = record e {
  processing_status = ProcessingStatus.processed;
  processed_at = some now;
  last_error_code = none;
  last_error_message = none;
  locked_at = none;
  lock_owner = none;
}

abbrev pub retried_row : ℕ → Instant → String → WebhookEvent → WebhookEvent
retried_row max_attempts now error_name e = record e {
  failure_count = e.failure_count + 1;
  processing_status =
      if leb max_attempts (e.failure_count + 1)
      then ProcessingStatus.failed
      else ProcessingStatus.queued;
  last_error_code = some (sanitize_error_code "EventProcessingError" error_name);
  last_error_message = some processing_failure_message;
  available_at = now;
  locked_at = none;
  lock_owner = none;
}

-- The row by how the run of the profile ended; a run that did not succeed counts as a `RuntimeError`.
abbrev pub settled_row : ℕ → Instant → Result SyncProfileRunResult → WebhookEvent → WebhookEvent
settled_row max_attempts now (returned run) e =
    if has_succeeded run then processed_row now e else retried_row max_attempts now "RuntimeError" e
settled_row max_attempts now (raised x) e = retried_row max_attempts now (type_name x) e

module _ (db : Database) (intake : IntakeSync db) (settings : Settings) where
  open db use {Session, tables, commit, rollback}

  pub modify_event-row :
      (f : WebhookEvent → WebhookEvent)
      → ((e : WebhookEvent) → (f e).id ≡ e.id)
      → (i : ℕ) (s : Session) (e : WebhookEvent) → find_event i (tables s) ≡ some e
      → find_event i (tables (commit (modify_event db i f s))) ≡ some (f e)
  modify_event-row f keeps i s e h =
      simp (db.tables-commit, tables-modify_event) (find_event-update f keeps i (tables s) e h)

  pub release-row :
      (f : WebhookEvent → WebhookEvent)
      → ((e : WebhookEvent) → (f e).id ≡ e.id)
      → (i : ℕ) (s : Session) (e : WebhookEvent) → find_event i (tables s) ≡ some e
      → find_event i (tables (release_event_lock db i (commit (modify_event db i f s))))
        ≡ some (unlock_event (f e))
  unfolding release_event_lock unlock_event
  release-row f keeps i s e h =
      modify_event-row unlock_event (λ x. refl) i _ (f e) (modify_event-row f keeps i s e h)

  pub release-committed :
      (i : ℕ) (s : Session)
      → committed db (release_event_lock db i s) ≡ tables (release_event_lock db i s)
  unfolding release_event_lock
  release-committed i s = db.rollback-commit _ ∙ sym (db.tables-commit _)

  pub fail_event-row :
      (i profile_id : ℕ) (now : Instant) (x : Exception) (s : Session) (e : WebhookEvent)
      → find_event i (committed db s) ≡ some e
      → find_event i (tables (fail_event db intake settings i profile_id now x s).1)
        ≡ some (retried_row settings.event_max_attempts now (type_name x) e)
  unfolding fail_event unlock_event mark_attempt_failed
  fail_event-row i profile_id now x s e h =
      release-row (mark_attempt_failed settings.event_max_attempts now (type_name x)) (λ y. refl) i
        (rollback s) e h

  pub finish_event-row :
      (i profile_id : ℕ) (now : Instant) (run : Result SyncProfileRunResult) (s : Session)
      (e : WebhookEvent)
      → find_event i (tables s) ≡ some e
      → committed db s ≡ tables s
      → find_event i (tables (finish_event db intake settings i profile_id now run s).1)
        ≡ some (settled_row settings.event_max_attempts now run e)
  unfolding finish_event unlock_event mark_processed type_name
  finish_event-row i profile_id now (raised x) s e h k =
      fail_event-row i profile_id now x s e (ap (find_event i) k ∙ h)
  finish_event-row i profile_id now (returned run) s e h k = elim (Bool-cases (has_succeeded run)) [
    | inl good ↦ rw good (release-row (mark_processed now) (λ y. refl) i s e h)
    | inr bad ↦
        rw bad (fail_event-row i profile_id now (runtime_error _) s e (ap (find_event i) k ∙ h))
  ]
