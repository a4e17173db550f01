-- ===== src/Polling/Effects.antt =====
-- What a run of app/services/polling_worker.py leaves in the tables, on each of its branches.
use procore_intake_bridge.Base.{
  ℕ, ◌≡◌, refl, ap, String, Bool, true, false, ◌||◌, Option, none, some, arith, update_row_thrice,
}
use procore_intake_bridge.Models.{Instant, SyncMode, SyncProfile}
use procore_intake_bridge.Models.Settings.{Settings}
use procore_intake_bridge.Exceptions.{Exception, lookup_error, type_name, Result, returned, raised}
use procore_intake_bridge.Database.{Database}
use procore_intake_bridge.Database.Writes.{
  find_profile, update_profile, modify_profile, tables-modify_profile,
}
use procore_intake_bridge.Polling.{SyncSummary, IntakeSync}
use procore_intake_bridge.Polling.Profiles.{
  has_active_lock, lock_is_free, lock_profile, unlock_profile, record_sync_success,
  record_sync_failure, acquire_sync_lock, release_sync_lock,
}
use procore_intake_bridge.Polling.Run.{
  SyncProfileRunResult, or_else, or_text, is_live, planned_watermark, sync_request, success_result,
  failure_result, finish_run, run_locked, run_persisted, run_planned, run_found,
  run_sync_profile_once,
}

-- The bookkeeping of a run by how its sync ended.
abbrev pub recorded : Instant → Result SyncSummary → SyncProfile → SyncProfile
recorded now (returned summary) p = unlock_profile (record_sync_success now now p)
recorded now (raised e) p = unlock_profile (record_sync_failure now (type_name e) p)

abbrev pub outcome : ℕ → Instant → Instant → Result SyncSummary → SyncProfileRunResult
outcome i planned now (returned summary) = success_result i planned now summary
outcome i planned now (raised e) = failure_result i planned e

-- The tests of `run_sync_profile_once` let a run go on.
pub record IsRunnable (settings : Settings) (p : SyncProfile) (mode : Option SyncMode)
    (force : Bool) (now : Instant) : Type 0 where
  pub allowed : (p.enabled || force) ≡ true
  pub unlocked : has_active_lock p.locked_at now settings.sync_lock_timeout_minutes ≡ false
  pub mocked : is_live (or_else mode p.mode) ≡ false

pub lock_free_of_inactive :
    (locked_at : Option Instant) (now : Instant) (timeout : ℕ)
    → has_active_lock locked_at now timeout ≡ false
    → lock_is_free locked_at now timeout ≡ true
unfolding has_active_lock lock_is_free
lock_free_of_inactive l now timeout h = ground arith

module _ (db : Database) (intake : IntakeSync db) (settings : Settings) where
  open db use {Session, tables, commit, rollback}
  open intake use {sync_connection}

  -- The session in which the sync of a run is called.
  abbrev pub locked_session : SyncProfile → Instant → Option String → Session → Session
  locked_session p now owner s =
      commit (modify_profile db p.id (lock_profile now (or_text owner settings.worker_id)) s)

  abbrev pub sync_of_run :
      SyncProfile → Instant → Option String → Session → Result SyncSummary × Session
  sync_of_run p now owner s =
      sync_connection (sync_request false (planned_watermark settings now p) p)
        (locked_session p now owner s)

  pub run_missing :
      (i : ℕ) (mode : Option SyncMode) (dry force : Bool) (now : Instant) (owner : Option String)
      (s : Session)
      → find_profile i (tables s) ≡ none
      → run_sync_profile_once db intake settings i mode dry force now owner s
        ≡ (raised (lookup_error "Sync profile not found."), s)
  unfolding run_sync_profile_once
  run_missing i mode dry force now owner s missing = rw (missing, run_sync_profile_once)

  pub run-eq-run_found :
      (i : ℕ) (mode : Option SyncMode) (dry force : Bool) (now : Instant) (owner : Option String)
      (s : Session) (p : SyncProfile)
      → find_profile i (tables s) ≡ some p
      → run_sync_profile_once db intake settings i mode dry force now owner s
        ≡ run_found db intake settings p mode dry force now owner s
  unfolding run_sync_profile_once
  run-eq-run_found i mode dry force now owner s p found = rw (found, run_sync_profile_once)

  pub run_persisted-eq-finish_run :
      (p : SyncProfile) (now : Instant) (owner : Option String) (s : Session)
      → find_profile p.id (tables s) ≡ some p
      → has_active_lock p.locked_at now settings.sync_lock_timeout_minutes ≡ false
      → run_persisted db intake settings p now owner s ≡ (
          let (r, s1) = sync_of_run p now owner s in
          finish_run db intake settings p.id (planned_watermark settings now p) now r s1)
  unfolding run_persisted run_locked acquire_sync_lock
  run_persisted-eq-finish_run p now owner s found inactive = ground (
    arith,
    found,
    lock_free_of_inactive p.locked_at now settings.sync_lock_timeout_minutes inactive,
  )

  -- A runnable profile is locked, synced and booked.
  pub run-eq-finish_run :
      (p : SyncProfile) (mode : Option SyncMode) (force : Bool) (now : Instant)
      (owner : Option String) (s : Session)
      → find_profile p.id (tables s) ≡ some p
      → IsRunnable settings p mode force now
      → run_sync_profile_once db intake settings p.id mode false force now owner s ≡ (
          let (r, s1) = sync_of_run p now owner s in
          finish_run db intake settings p.id (planned_watermark settings now p) now r s1)
  unfolding run_sync_profile_once run_found run_planned
  run-eq-finish_run p mode force now owner s found runnable =
      ground (arith, found, run_persisted-eq-finish_run p now owner s found runnable.unlocked)

  -- A run whose sync raised keeps nothing of the sync: of all tables only the row of the profile
  -- differs from before the run.
  pub tables-finish_run_raised :
      (p : SyncProfile) (planned now : Instant) (owner : Option String) (s : Session)
      (e : Exception) (s2 : Session)
      → rollback s2 ≡ rollback (locked_session p now owner s)
      → tables (finish_run db intake settings p.id planned now (raised e) s2).1
        ≡ update_profile p.id (recorded now (raised e)) (tables s)
  unfolding finish_run release_sync_lock lock_profile record_sync_failure unlock_profile
  tables-finish_run_raised p planned now owner s e s2 h =
      simp (db.tables-commit, tables-modify_profile, h, db.rollback-commit)
        (ap (λ rows. record (tables s) { sync_profiles = rows })
          (update_row_thrice _ (lock_profile now (or_text owner settings.worker_id))
            (record_sync_failure now (type_name e)) unlock_profile (λ r. refl) (λ r. refl) p.id
            (tables s).sync_profiles))

  -- A run whose sync returned keeps what the sync wrote in the other tables.
  pub tables-finish_run_returned :
      (p : SyncProfile) (planned now : Instant) (owner : Option String) (s : Session)
      (summary : SyncSummary) (s2 : Session)
      → (tables s2).sync_profiles ≡ (tables (locked_session p now owner s)).sync_profiles
      → tables (finish_run db intake settings p.id planned now (returned summary) s2).1
        ≡ (record (tables s2) {
          sync_profiles =
              (update_profile p.id (recorded now (returned summary)) (tables s)).sync_profiles;
        })
  unfolding finish_run release_sync_lock lock_profile record_sync_success unlock_profile
  tables-finish_run_returned p planned now owner s summary s2 h =
      simp (db.tables-commit, tables-modify_profile, h)
        (ap (λ rows. record (tables s2) { sync_profiles = rows })
          (update_row_thrice _ (lock_profile now (or_text owner settings.worker_id))
            (record_sync_success now now) unlock_profile (λ r. refl) (λ r. refl) p.id
            (tables s).sync_profiles))
