-- ===== src/Polling/Tests.antt =====
-- The theorems on app/services/polling_worker.py at the sample rows.
use procore_intake_bridge.Base.{
  true, false, refl, none, some, ◌≡◌, ◌+◌, arith, leb, length, find_row, ◌⊎◌,
}
use procore_intake_bridge.Exceptions.{returned, raised, lookup_error, other}
use procore_intake_bridge.Models.{minutes}
use procore_intake_bridge.Models.Settings.{default_settings}
use procore_intake_bridge.Database.{committed}
use procore_intake_bridge.Database.Writes.{find_profile}
use procore_intake_bridge.Memory.{memory}
use procore_intake_bridge.Samples.{
  noon, half_past, sample_profile, sample_session, working_sync, failing_sync,
}
use procore_intake_bridge.Polling.Profiles.{
  acquire_sync_lock, release_sync_lock, is_due, find_due_sync_profiles, has_active_lock,
  lock_is_free,
}
use procore_intake_bridge.Polling.Run.{planned_watermark, run_sync_profile_once, RunStatus}
use procore_intake_bridge.Polling.Effects.{IsRunnable, recorded, outcome, sync_of_run}
use procore_intake_bridge.Polling.Locks.{acquire-acquire, release-frees_takeover}
use procore_intake_bridge.Polling.Outcome.{
  tables_after, run_sync_profile_once_lem, run_raises_unchanged, dry_run_unchanged, run-not_due,
  run-watermark,
}
use procore_intake_bridge.Polling.Round.{PollingRunSummary, run_due_profiles_once}
use procore_intake_bridge.Polling.Round.Total.{run_due_profiles_once_total}

sample-IsRunnable : IsRunnable default_settings sample_profile none false noon
unfolding has_active_lock
sample-IsRunnable = record { allowed = refl; unlocked = refl; mocked = refl }

sample_found : find_profile 7 (memory.tables sample_session) ≡ some sample_profile
unfolding find_row
sample_found = refl

run_sync_profile_once_lem_example :
    let (r, synced) =
      sync_of_run memory working_sync default_settings sample_profile noon none sample_session in
    let (result, s') =
      run_sync_profile_once memory working_sync default_settings 7 none false false noon none
        sample_session in
    (result ≡ returned (outcome 7 (planned_watermark default_settings noon sample_profile) noon r))
    × (find_profile 7 (memory.tables s') ≡ some (recorded noon r sample_profile))
    × (memory.tables s'
        ≡ tables_after 7 noon r (memory.tables sample_session) (memory.tables synced))
    × (committed memory s' ≡ memory.tables s')
run_sync_profile_once_lem_example =
    run_sync_profile_once_lem memory working_sync default_settings sample_profile none false noon
      none sample_session sample_found sample-IsRunnable

run_raises_unchanged_example :
    (run_sync_profile_once memory failing_sync default_settings 8 none false false noon none
      sample_session).1
    ≡ sample_session
unfolding run_sync_profile_once find_row
run_raises_unchanged_example =
    run_raises_unchanged memory failing_sync default_settings 8 none false noon none sample_session
      (lookup_error "Sync profile not found.") refl

dry_run_unchanged_example :
    (run_sync_profile_once memory working_sync default_settings 7 none true false noon none
      sample_session).1
    ≡ sample_session
dry_run_unchanged_example =
    dry_run_unchanged memory working_sync default_settings 7 none false noon none sample_session

run-not_due_example :
    is_due half_past (recorded noon (raised (other "TimeoutError" "slow")) sample_profile) ≡ false
run-not_due_example =
    run-not_due memory failing_sync default_settings sample_profile _ none false noon half_past none
      sample_session sample_found sample-IsRunnable
      (run_sync_profile_once_lem memory failing_sync default_settings sample_profile none false noon
        none sample_session sample_found sample-IsRunnable).1
      (omega arith)

run-watermark_example :
    let result =
      outcome 7
        (planned_watermark default_settings noon sample_profile)
        noon
        (raised (other "TimeoutError" "slow")) in
    let q = recorded noon (raised (other "TimeoutError" "slow")) sample_profile in
    ((result.status ≡ RunStatus.succeeded)
      × (q.last_watermark_at ≡ some noon)
      × (q.consecutive_failure_count ≡ 0))
    ⊎ ((result.status ≡ RunStatus.failed)
        × (q.last_watermark_at ≡ sample_profile.last_watermark_at)
        × (q.consecutive_failure_count ≡ sample_profile.consecutive_failure_count + 1))
run-watermark_example =
    run-watermark memory failing_sync default_settings sample_profile _ none false noon none
      sample_session _ sample_found sample-IsRunnable
      (run_sync_profile_once_lem memory failing_sync default_settings sample_profile none false noon
        none sample_session sample_found sample-IsRunnable).0
      (run_sync_profile_once_lem memory failing_sync default_settings sample_profile none false noon
        none sample_session sample_found sample-IsRunnable).1

acquire-acquire_example :
    (acquire_sync_lock memory default_settings 7 "second" half_past
      (acquire_sync_lock memory default_settings 7 "first" noon sample_session).1).0
    ≡ leb (noon + minutes 30) half_past
unfolding acquire_sync_lock lock_is_free find_row
acquire-acquire_example =
    acquire-acquire memory default_settings 7 "first" "second" noon half_past sample_session refl

release-frees_takeover_example :
    let s1 = (acquire_sync_lock memory default_settings 7 "first" noon sample_session).1 in
    let (taken, s2) = acquire_sync_lock memory default_settings 7 "second" half_past s1 in
    (taken ≡ true)
    × ((acquire_sync_lock memory default_settings 7 "third" half_past
          (release_sync_lock memory 7 s2)).0
        ≡ true)
unfolding acquire_sync_lock lock_is_free find_row
release-frees_takeover_example =
    release-frees_takeover memory default_settings 7 "first" "second" "third" noon half_past
      half_past sample_session refl (omega arith)

run_due_profiles_once_total_example :
    (summary : PollingRunSummary) × ((run_due_profiles_once memory failing_sync default_settings
        false noon sample_session).0
      ≡ returned summary)
    × (summary.due_profiles_count
        ≡ length (find_due_sync_profiles noon (memory.tables sample_session)))
    × (summary.attempted_count ≡ summary.due_profiles_count)
    × (summary.succeeded_count + summary.failed_count + summary.skipped_count
        ≡ summary.due_profiles_count)
run_due_profiles_once_total_example =
    run_due_profiles_once_total memory failing_sync default_settings noon sample_session
