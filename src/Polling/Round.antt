-- ===== src/Polling/Round.antt =====
-- `run_due_profiles_once` of app/services/polling_worker.py: one run of each due profile.
pub mod Total
use procore_intake_bridge.Base.{
  ℕ, ◌-◌, Bool, true, false, ◌||◌, Option, none, some, List, [], ◌∷◌, length, count, if◌then◌else◌,
}
use procore_intake_bridge.Models.{Instant, days, SyncProfile}
use procore_intake_bridge.Models.Settings.{Settings}
use procore_intake_bridge.Exceptions.{
  Exception, sync_profile_disabled, sync_profile_locked, live_polling_disabled,
  live_polling_not_implemented, type_name, message_of, Result, returned, raised,
}
use procore_intake_bridge.Database.{Database}
use procore_intake_bridge.Polling.{IntakeSync}
use procore_intake_bridge.Polling.Profiles.{find_due_sync_profiles}
use procore_intake_bridge.Polling.Run.{
  RunStatus, SyncProfileRunResult, planned_watermark, run_sync_profile_once,
}

pub record PollingRunSummary : Type 0 where
  pub due_profiles_count : ℕ
  pub attempted_count : ℕ
  pub succeeded_count : ℕ
  pub failed_count : ℕ
  pub skipped_count : ℕ
  pub is_dry_run : Bool
  pub results : List SyncProfileRunResult

-- The classes of the `except` clause of the loop.
unfoldable pub is_skip_error : Exception → Bool
is_skip_error (live_polling_disabled m) = true
is_skip_error (live_polling_not_implemented m) = true
is_skip_error (sync_profile_disabled m) = true
is_skip_error (sync_profile_locked m) = true
is_skip_error _ = false

unfoldable pub skipped_result :
    Settings → Bool → Instant → SyncProfile → Exception → SyncProfileRunResult
skipped_result settings dry run_at p e = record {
  sync_profile_id = p.id;
  status = RunStatus.skipped;
  mode = p.mode;
  is_dry_run = dry;
  planned_updated_after = planned_watermark settings run_at p;
  watermark_advanced_to = none;
  record_count = 0;
  attachment_count = 0;
  sync_run_id = none;
  error_code = some (type_name e);
  message = some (message_of e);
}

-- The `except` clause: any other exception goes on.
unfoldable pub skip_errors :
    Settings
    → Bool
    → Instant
    → SyncProfile
    → Result SyncProfileRunResult
    → Result SyncProfileRunResult
skip_errors settings dry run_at p (returned result) = returned result
skip_errors settings dry run_at p (raised e) =
    if is_skip_error e then returned (skipped_result settings dry run_at p e) else raised e

unfoldable pub is_succeeded : SyncProfileRunResult → Bool
is_succeeded r = elim r.status [ RunStatus.succeeded ↦ true | RunStatus.dry_run ↦ true | _ ↦ false ]

unfoldable pub is_failed : SyncProfileRunResult → Bool
is_failed r = elim r.status [ RunStatus.failed ↦ true | _ ↦ false ]

unfoldable pub is_skipped : SyncProfileRunResult → Bool
is_skipped r = elim r.status [ RunStatus.skipped ↦ true | _ ↦ false ]

unfoldable pub polling_summary : ℕ → Bool → List SyncProfileRunResult → PollingRunSummary
unfolding is_succeeded is_failed is_skipped
polling_summary due dry results = record {
  due_profiles_count = due;
  attempted_count = length results;
  succeeded_count = count is_succeeded results;
  failed_count = count is_failed results;
  skipped_count = count is_skipped results;
  is_dry_run = dry;
  results = results;
}

abbrev pub prepend {ℓ} : {A : Type ℓ} → A → Result (List A) → Result (List A)
prepend a (returned rest) = returned (a ∷ rest)
prepend a (raised e) = raised e

module _ (db : Database) (intake : IntakeSync db) (settings : Settings) where
  open db use {Session, tables}

  -- The body of the loop, for the profile of one row.
  unfoldable pub run_due_profile :
      Bool → Instant → SyncProfile → Session → Result SyncProfileRunResult × Session
  run_due_profile dry run_at p s =
      let (r, s1) = run_sync_profile_once db intake settings p.id none dry false run_at none s in
      (skip_errors settings dry run_at p r, s1)

  -- The loop; an exception that is not caught ends it.
  unfoldable pub run_profiles :
      Bool → Instant → List SyncProfile → Session → Result (List SyncProfileRunResult) × Session
  run_profiles dry run_at [] s = (returned [], s)
  run_profiles dry run_at (p ∷ ps) s =
      let (r, s1) = run_due_profile dry run_at p s in
      let rest = run_profiles dry run_at ps s1 in
      elim r [ raised e ↦ (raised e, s1) | returned result ↦ (prepend result rest.0, rest.1) ]

  abbrev pub summarised : ℕ → Bool → Result (List SyncProfileRunResult) → Result PollingRunSummary
  summarised due dry (returned results) = returned (polling_summary due dry results)
  summarised due dry (raised e) = raised e

  unfoldable pub run_due_profiles_once :
      Bool → Instant → Session → Result PollingRunSummary × Session
  run_due_profiles_once dry run_at s =
      let due = find_due_sync_profiles run_at (tables s) in
      let (results, s1) = run_profiles dry run_at due s in (summarised (length due) dry results, s1)
