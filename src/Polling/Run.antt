-- ===== src/Polling/Run.antt =====
-- `run_sync_profile_once` of app/services/polling_worker.py.
use procore_intake_bridge.Base.{
  ℕ, ◌-◌, String, Bool, true, false, ◌&&◌, not, Option, none, some, if◌then◌else◌, str_eq,
}
use procore_intake_bridge.Models.{Instant, days, SyncMode, mock, live, SyncProfile}
use procore_intake_bridge.Models.Settings.{Settings}
use procore_intake_bridge.Exceptions.{
  Exception, lookup_error, sync_profile_disabled, sync_profile_locked, live_polling_disabled,
  live_polling_not_implemented, type_name, Result, returned, raised,
}
use procore_intake_bridge.Database.{Database}
use procore_intake_bridge.Database.Writes.{find_profile, modify_profile}
use procore_intake_bridge.Polling.{SyncRequest, SyncSummary, IntakeSync}
use procore_intake_bridge.Polling.Profiles.{
  has_active_lock, record_sync_success, record_sync_failure, acquire_sync_lock, release_sync_lock,
  sanitize_error_code, failure_message,
}

pub data RunStatus : Type 0 where
  succeeded failed skipped dry_run : RunStatus

pub record SyncProfileRunResult : Type 0 where
  pub sync_profile_id : ℕ
  pub status : RunStatus
  pub mode : SyncMode
  pub is_dry_run : Bool
  pub planned_updated_after : Instant
  pub watermark_advanced_to : Option Instant
  pub record_count : ℕ
  pub attachment_count : ℕ
  pub sync_run_id : Option ℕ
  pub error_code : Option String
  pub message : Option String

abbrev pub or_else {ℓ} : {A : Type ℓ} → Option A → A → A
or_else none d = d
or_else (some a) d = a

-- `value or default`, where an empty text counts as none.
abbrev pub or_text : Option String → String → String
or_text none d = d
or_text (some a) d = if str_eq a "" then d else a

abbrev pub is_live : SyncMode → Bool
is_live live = true
is_live mock = false

-- The watermark of the profile, or the start of the lookback window.
unfoldable pub planned_watermark : Settings → Instant → SyncProfile → Instant
planned_watermark settings now p =
    or_else p.last_watermark_at (now - days settings.max_sync_lookback_days)

unfoldable pub sync_request : Bool → Instant → SyncProfile → SyncRequest
sync_request dry updated_after p = record {
  connection_id = p.connection_id;
  dry_run = dry;
  procore_project_id = p.procore_project_id;
  sync_rfis = p.sync_rfis;
  sync_submittals = p.sync_submittals;
  updated_after = updated_after;
  sync_profile_id = p.id;
}

unfoldable pub dry_run_result : ℕ → Instant → SyncSummary → SyncProfileRunResult
dry_run_result profile_id planned summary = record {
  sync_profile_id = profile_id;
  status = RunStatus.dry_run;
  mode = mock;
  is_dry_run = true;
  planned_updated_after = planned;
  watermark_advanced_to = none;
  record_count = summary.record_count;
  attachment_count = summary.attachment_count;
  sync_run_id = none;
  error_code = none;
  message = some "Dry run completed without local writes or watermark changes.";
}

unfoldable pub success_result : ℕ → Instant → Instant → SyncSummary → SyncProfileRunResult
success_result profile_id planned now summary = record {
  sync_profile_id = profile_id;
  status = RunStatus.succeeded;
  mode = mock;
  is_dry_run = false;
  planned_updated_after = planned;
  watermark_advanced_to = some now;
  record_count = summary.record_count;
  attachment_count = summary.attachment_count;
  sync_run_id = summary.sync_run_id;
  error_code = none;
  message = some "Fixture sync completed and local sync state advanced.";
}

unfoldable pub failure_result : ℕ → Instant → Exception → SyncProfileRunResult
failure_result profile_id planned e = record {
  sync_profile_id = profile_id;
  status = RunStatus.failed;
  mode = mock;
  is_dry_run = false;
  planned_updated_after = planned;
  watermark_advanced_to = none;
  record_count = 0;
  attachment_count = 0;
  sync_run_id = none;
  error_code = some (sanitize_error_code "SyncError" (type_name e));
  message = some failure_message;
}

module _ (db : Database) (intake : IntakeSync db) (settings : Settings) where
  open db use {Session, tables, commit, rollback}
  open intake use {sync_connection}

  -- The `dry_run` branch: an exception of the sync passes through.
  unfoldable pub finish_dry_run :
      ℕ → Instant → Result SyncSummary → Session → Result SyncProfileRunResult × Session
  finish_dry_run i planned (returned summary) s = (returned (dry_run_result i planned summary), s)
  finish_dry_run i planned (raised e) s = (raised e, s)

  -- The `try`, `except` and `finally` of a persisted run, once the sync has returned or raised. The
  -- commit at the end of the `try` is assumed to succeed; the `except` would catch its failure.
  unfoldable pub finish_run :
      ℕ → Instant → Instant → Result SyncSummary → Session → Result SyncProfileRunResult × Session
  finish_run i planned now (returned summary) s =
      let s1 = commit (modify_profile db i (record_sync_success now now) s) in
      (returned (success_result i planned now summary), release_sync_lock db i s1)
  finish_run i planned now (raised e) s =
      let s1 = commit (modify_profile db i (record_sync_failure now (type_name e)) (rollback s)) in
      (returned (failure_result i planned e), release_sync_lock db i s1)

  unfoldable pub run_locked :
      SyncProfile → Instant → Bool → Session → Result SyncProfileRunResult × Session
  run_locked p now false s =
      (raised (sync_profile_locked "Sync profile lock could not be acquired."), s)
  run_locked p now true s =
      let planned = planned_watermark settings now p in
      let (r, s1) = sync_connection (sync_request false planned p) s in
      finish_run p.id planned now r s1

  unfoldable pub run_persisted :
      SyncProfile → Instant → Option String → Session → Result SyncProfileRunResult × Session
  run_persisted p now lock_owner s =
      let (acquired, s1) =
        acquire_sync_lock db settings p.id (or_text lock_owner settings.worker_id) now s in
      run_locked p now acquired s1

  unfoldable pub run_planned :
      SyncProfile → Bool → Instant → Option String → Session → Result SyncProfileRunResult × Session
  run_planned p true now lock_owner s =
      let planned = planned_watermark settings now p in
      let (r, s1) = sync_connection (sync_request true planned p) s in
      finish_dry_run p.id planned r s1
  run_planned p false now lock_owner s = run_persisted p now lock_owner s

  -- The tests before the run, in the order of the source.
  unfoldable pub run_found :
      SyncProfile
      → Option SyncMode
      → Bool
      → Bool
      → Instant
      → Option String
      → Session
      → Result SyncProfileRunResult × Session
  run_found p mode dry force now lock_owner s =
      if not p.enabled && not force
      then (raised (sync_profile_disabled "Disabled sync profiles require force=true."), s)
      else if has_active_lock p.locked_at now settings.sync_lock_timeout_minutes
      then (raised (sync_profile_locked "Sync profile already has an active lock."), s)
      else if is_live (or_else mode p.mode)
      then (if not settings.procore_live_mode_enabled
          then (raised (live_polling_disabled "Live polling is disabled by configuration."), s)
          else (
            raised (live_polling_not_implemented "Live polling is not implemented in Phase A3."),
            s,
          ))
      else run_planned p dry now lock_owner s

  unfoldable pub run_sync_profile_once :
      ℕ
      → Option SyncMode
      → Bool
      → Bool
      → Instant
      → Option String
      → Session
      → Result SyncProfileRunResult × Session
  run_sync_profile_once profile_id mode dry force now lock_owner s =
      elim (find_profile profile_id (tables s)) [
        | none ↦ (raised (lookup_error "Sync profile not found."), s)
        | some p ↦ run_found p mode dry force now lock_owner s
      ]
