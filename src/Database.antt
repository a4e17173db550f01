-- ===== src/Database.antt =====
-- A SQLAlchemy session on the application's database (app/database.py), as the services use it.
-- SQLAlchemy is not part of the repository, so a session is a parameter: `tables` is what its queries
-- see, its own flushed changes included, and `write` stands for changes of rows that have been flushed.
-- A failing `flush` is modelled where app/services/event_queue.py handles an IntegrityError. Every
-- `commit` is assumed to succeed, also the two inside a `try` whose `except` would book its failure (at
-- the end of run_sync_profile_once and of process_webhook_event_once).
pub mod Writes
use procore_intake_bridge.Base.{◌≡◌, List, ◌∙◌, ap}
use procore_intake_bridge.Models.{
  DmsaConnection, SyncProfile, WebhookEvent, IntakeRecord, SyncRun, IntakeReviewState,
  IntakeReviewLifecycleEvent, AttachmentObject, IntakeAttachment,
}

-- Each table is the list of its rows in the order of the primary key.
pub record Tables : Type 0 where
  pub connections : List DmsaConnection
  pub sync_profiles : List SyncProfile
  pub webhook_events : List WebhookEvent
  pub intake_records : List IntakeRecord
  pub sync_runs : List SyncRun
  pub review_states : List IntakeReviewState
  pub lifecycle_events : List IntakeReviewLifecycleEvent
  pub intake_attachments : List IntakeAttachment
  pub attachment_objects : List AttachmentObject

-- The documented behaviour that the proofs rely on: a session reads its own writes, `commit` keeps
-- them, and `rollback` undoes exactly what was written since the last commit.
pub record Database : Type 1 where
  pub Session : Type 0
  pub tables : Session → Tables
  pub write : Tables → Session → Session
  pub commit : Session → Session
  pub rollback : Session → Session
  pub tables-write : (t : Tables) (s : Session) → tables (write t s) ≡ t
  pub tables-commit : (s : Session) → tables (commit s) ≡ tables s
  pub rollback-write : (t : Tables) (s : Session) → rollback (write t s) ≡ rollback s
  pub rollback-commit : (s : Session) → tables (rollback (commit s)) ≡ tables s
  pub rollback-rollback : (s : Session) → rollback (rollback s) ≡ rollback s

module _ (db : Database) where
  open db use {Session, tables, write, commit, rollback, rollback-write, rollback-commit}

  -- What a new session reads: the tables as of the last commit.
  abbrev pub committed : Session → Tables
  committed s = tables (rollback s)

  pub committed-write : (t : Tables) (s : Session) → committed (write t s) ≡ committed s
  committed-write t s = ap tables (rollback-write t s)
