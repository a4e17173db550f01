-- ===== src/Sync/Connection.antt =====
-- app/services/intake_sync.py: sync_connection on a session, and the sync that the polling worker calls.
use procore_intake_bridge.Base.{
  ℕ, String, Bool, true, false, ◌||◌, not, Option, none, some, List, if◌then◌else◌, str_eq,
  find_row,
}
use procore_intake_bridge.Exceptions.{Result, returned, raised, value_error, other}
use procore_intake_bridge.Models.{Instant, DmsaConnection}
use procore_intake_bridge.Database.{Tables, Database}
use procore_intake_bridge.Polling.{SyncRequest, SyncSummary}
use procore_intake_bridge.Sync.Source.{FixtureItem, Fixtures, collect_fixture_records}
use procore_intake_bridge.Sync.Store.{Storage, Keys}
use procore_intake_bridge.Sync.Run.{store_all, dry_result}

-- The arguments of `sync_connection` after the session, the connection and `dry_run`.
pub record SyncOptions : Type 0 where
  pub procore_project_id : Option String
  pub sync_rfis : Bool
  pub sync_submittals : Bool
  pub updated_after : Option Instant
  pub mode : String
  pub commit : Bool
  pub sync_profile_id : Option ℕ

module _ (fixtures : Fixtures) (storage : Storage) (keys : Keys) (db : Database) where
  open db use {Session, tables, write, commit}

  -- What was flushed, committed if that is asked for and nothing was raised.
  unfoldable pub keep : Bool → Result SyncSummary × Tables → Session → Result SyncSummary × Session
  keep true (returned summary, t) s = (returned summary, commit (write t s))
  keep false (returned summary, t) s = (returned summary, write t s)
  keep asked (raised e, t) s = (raised e, write t s)

  -- The sync of what was collected.
  unfoldable pub sync_collected :
      DmsaConnection
      → Bool
      → SyncOptions
      → Instant
      → List (String × FixtureItem)
      → Session
      → Result SyncSummary × Session
  unfolding keep
  sync_collected connection true options now entries s =
      (dry_result fixtures storage keys connection options.sync_profile_id now entries, s)
  sync_collected connection false options now entries s =
      keep options.commit
        (store_all fixtures storage keys connection options.sync_profile_id now entries (tables s))
        s

  unfoldable pub sync_connection :
      DmsaConnection → Bool → SyncOptions → Instant → Session → Result SyncSummary × Session
  unfolding sync_collected
  sync_connection connection dry_run options now s =
      if not (str_eq options.mode "fixture" || str_eq options.mode "mock")
      then (raised (value_error "Live intake sync is not implemented in Phase A3."), s)
      else elim (collect_fixture_records fixtures connection options.procore_project_id
          options.sync_rfis options.sync_submittals options.updated_after) [
            | raised e ↦ (raised e, s)
            | returned entries ↦ sync_collected connection dry_run options now entries s
          ]

  -- The options of the worker's call.
  unfoldable pub worker_options : SyncRequest → SyncOptions
  worker_options request = record {
    procore_project_id = some request.procore_project_id;
    sync_rfis = request.sync_rfis;
    sync_submittals = request.sync_submittals;
    updated_after = some request.updated_after;
    mode = "mock";
    commit = false;
    sync_profile_id = some request.sync_profile_id;
  }

  -- The worker's call, for the connection of the profile.
  unfoldable pub worker_sync : Instant → SyncRequest → Session → Result SyncSummary × Session
  worker_sync now request s =
      elim (find_row (λ (c : DmsaConnection). c.id) request.connection_id (tables s).connections) [
        | none ↦ (raised (other "AttributeError" "'NoneType' object has no attribute 'id'"), s)
        | some connection ↦
            sync_connection connection request.dry_run (worker_options request) now s
      ]
