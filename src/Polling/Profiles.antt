-- ===== src/Polling/Profiles.antt =====
-- app/services/polling_worker.py: due profiles, the lock of a profile, and the bookkeeping of a run.
-- A comparison with `now - timedelta(…)` is written with the duration on the other side.
use procore_intake_bridge.Text.{first_characters}
use Prim.Native.Char.{Char, code}
use procore_intake_bridge.Base.{
  ℕ, ◌+◌, String, Bool, true, false, ◌&&◌, ◌||◌, Option, none, some, List, leb, ltb, ◌==◌,
  if◌then◌else◌, select, str_eq,
}
use procore_intake_bridge.Models.{Instant, minutes, SyncProfile}
use procore_intake_bridge.Models.Settings.{Settings}
use procore_intake_bridge.Database.{Tables, Database}
use procore_intake_bridge.Database.Writes.{find_profile, modify_profile}

unfoldable pub calculate_next_run_at : Instant → ℕ → Instant
calculate_next_run_at now polling_interval_minutes = now + minutes polling_interval_minutes

unfoldable pub is_due : Instant → SyncProfile → Bool
is_due now p = p.enabled && elim p.next_run_at [ none ↦ true | some at ↦ leb at now ]

unfoldable pub find_due_sync_profiles : Instant → Tables → List SyncProfile
unfolding is_due
find_due_sync_profiles now t = select (is_due now) t.sync_profiles

-- The condition of the lock's UPDATE: no lock, or one that is older than the timeout.
unfoldable pub lock_is_free : Option Instant → Instant → ℕ → Bool
lock_is_free none now timeout = true
lock_is_free (some locked_at) now timeout = leb (locked_at + minutes timeout) now

unfoldable pub has_active_lock : Option Instant → Instant → ℕ → Bool
has_active_lock none now timeout = false
has_active_lock (some locked_at) now timeout = ltb now (locked_at + minutes timeout)

unfoldable pub lock_profile : Instant → String → SyncProfile → SyncProfile
lock_profile now lock_owner p = record p { locked_at = some now; lock_owner = some lock_owner }

unfoldable pub unlock_profile : SyncProfile → SyncProfile
unlock_profile p = record p { locked_at = none; lock_owner = none }

unfoldable pub record_sync_success : Instant → Instant → SyncProfile → SyncProfile
record_sync_success attempted_at watermark_at p = record p {
  last_attempted_sync_at = some attempted_at;
  last_successful_sync_at = some attempted_at;
  last_watermark_at = some watermark_at;
  next_run_at = some (calculate_next_run_at attempted_at p.polling_interval_minutes);
  consecutive_failure_count = 0;
  last_error_code = none;
  last_error_message = none;
}

-- `character.isalnum() or character == "_"`, on the ASCII of a class name.
unfoldable pub is_code_character : Char → Bool
is_code_character ch =
    let c = code ch in
    (leb b'0' c && leb c b'9')
    || (leb b'A' c && leb c b'Z')
    || (leb b'a' c && leb c b'z')
    || c == b'_'

-- The characters that are kept, and the first `n` of a text.
unfoldable pub code_characters : String → String
code_characters String.[] = String.[]
code_characters (String.◌∷◌ c s) =
    let rest = code_characters s in if is_code_character c then String.◌∷◌ c rest else rest

-- `_sanitize_error_code`, and `_safe_code` of app/services/event_queue.py: they differ in the default.
unfoldable pub sanitize_error_code : String → String → String
unfolding code_characters first_characters is_code_character
sanitize_error_code default value =
    let kept = first_characters 100 (code_characters value) in
    if str_eq kept "" then default else kept

abbrev pub failure_message : String
failure_message = "Sync attempt failed; sensitive error details were intentionally omitted."

unfoldable pub record_sync_failure : Instant → String → SyncProfile → SyncProfile
record_sync_failure attempted_at error_code p = record p {
  last_attempted_sync_at = some attempted_at;
  next_run_at = some (calculate_next_run_at attempted_at p.polling_interval_minutes);
  consecutive_failure_count = p.consecutive_failure_count + 1;
  last_error_code = some (sanitize_error_code "SyncError" error_code);
  last_error_message = some failure_message;
}

module _ (db : Database) where
  open db use {Session, tables, commit}

  -- The UPDATE … WHERE of the lock, its commit, and whether one row was changed.
  unfoldable pub acquire_sync_lock : Settings → ℕ → String → Instant → Session → Bool × Session
  acquire_sync_lock settings profile_id lock_owner now s =
      elim (find_profile profile_id (tables s)) [
        | none ↦ (false, commit s)
        | some p ↦
            if lock_is_free p.locked_at now settings.sync_lock_timeout_minutes
            then (true, commit (modify_profile db profile_id (lock_profile now lock_owner) s))
            else (false, commit s)
      ]

  unfoldable pub release_sync_lock : ℕ → Session → Session
  release_sync_lock profile_id s = commit (modify_profile db profile_id unlock_profile s)
