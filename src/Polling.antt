-- ===== src/Polling.antt =====
-- The run-once polling worker (app/services/polling_worker.py). Selection of due profiles and locks
-- are in `Polling.Profiles`, one run in `Polling.Run`, a round over the due profiles in `Polling.Round`.
-- The interface `IntakeSync` is what the worker asks of app/services/intake_sync.py.
pub mod Profiles
pub mod Run
pub mod Effects
pub mod Locks
pub mod Outcome
pub mod Shape
pub mod Round
mod Tests
use procore_intake_bridge.Base.{ℕ, ◌≡◌, String, Bool, true, Option}
use procore_intake_bridge.Models.{Instant}
use procore_intake_bridge.Exceptions.{Result}
use procore_intake_bridge.Database.{Tables, Database}

-- The arguments of a call of `sync_connection` by the worker: `mode` is "mock" and `commit` is false.
pub record SyncRequest : Type 0 where
  pub connection_id : ℕ
  pub dry_run : Bool
  pub procore_project_id : String
  pub sync_rfis : Bool
  pub sync_submittals : Bool
  pub updated_after : Instant
  pub sync_profile_id : ℕ

pub record SyncSummary : Type 0 where
  pub sync_run_id : Option ℕ
  pub record_count : ℕ
  pub attachment_count : ℕ

-- A sync that does not commit, leaves profiles and events alone, and writes nothing on a dry run.
pub record IntakeSync (db : Database) : Type 0 where
  pub sync_connection : SyncRequest → db.Session → Result SyncSummary × db.Session
  pub sync-rollback :
      (r : SyncRequest) (s : db.Session) → db.rollback (sync_connection r s).1 ≡ db.rollback s
  pub sync-sync_profiles :
      (r : SyncRequest) (s : db.Session)
      → (db.tables (sync_connection r s).1).sync_profiles ≡ (db.tables s).sync_profiles
  pub sync-webhook_events :
      (r : SyncRequest) (s : db.Session)
      → (db.tables (sync_connection r s).1).webhook_events ≡ (db.tables s).webhook_events
  pub sync-dry_run :
      (r : SyncRequest) (s : db.Session) → r.dry_run ≡ true → (sync_connection r s).1 ≡ s
