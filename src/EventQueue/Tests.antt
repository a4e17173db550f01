-- ===== src/EventQueue/Tests.antt =====
-- The theorems on app/services/event_queue.py at the sample rows.
use procore_intake_bridge.EventQueue.Mapping.{IsFirst, find_mapping_lem}
use procore_intake_bridge.EventQueue.Selection.{IsEligible, IsChronological, find_queued_events_lem}
use procore_intake_bridge.EventQueue.Enqueue.{event_of, enqueue_webhook_event}
use procore_intake_bridge.Database.{committed}
use procore_intake_bridge.EventQueue.Settled.{settled_row}
use procore_intake_bridge.EventQueue.Round.Total.{selected, run_event_queue_once_total}
use procore_intake_bridge.EventQueue.Round.Sound.{
  run_event_queue_once-QueueIsSound, dry_round-raises_locked,
}
use procore_intake_bridge.EventQueue.DryRun.{process_dry_commits_nothing}
use procore_intake_bridge.Exceptions.{returned, raised, sync_profile_locked, Result}
use procore_intake_bridge.EventQueue.Process.{process_webhook_event_once}
use procore_intake_bridge.Models.Settings.{default_settings}
use procore_intake_bridge.EventQueue.Outcome.{
  IsSound, process-IsSound, settled_result, process_webhook_event_once_lem,
}
use procore_intake_bridge.Polling.Profiles.{has_active_lock}
use procore_intake_bridge.EventQueue.Round.{EventQueueRunResult, run_event_queue_once}
use procore_intake_bridge.EventQueue.Frame.{QueueIsSound, process-other, process-QueueIsSound}
use procore_intake_bridge.Database.Writes.{find_event}
use procore_intake_bridge.Memory.{memory, MemorySession}
use procore_intake_bridge.Models.{WebhookEvent, rfi}
use procore_intake_bridge.EventQueue.Shape.{run_of_event, IsProcessable}
use procore_intake_bridge.EventQueue.Events.{
  is_queued, is_processing, is_relevant, find_queued_events, find_mapping, link_event,
  first_mapping, find_connection, profile_matches, supports,
}
use mathlib.Core.List.{Perm, List}
use procore_intake_bridge.Base.{
  true, false, refl, some, ◌≡◌, ◌+◌, arith, length, ◌∷◌, [], find_row, All-find_row, Option, Bool,
  none, All, min, List, ◌++◌,
}
use procore_intake_bridge.Samples.{
  noon, sample_connection, sample_profile, held_profile, sample_event, second_event, sample_session,
  held_session, working_sync, failing_sync, sample_encodings, sample_delivery,
}

sample_found : find_event 11 (memory.tables sample_session) ≡ some sample_event
unfolding find_row
sample_found = refl

held_found : find_event 11 (memory.tables held_session) ≡ some sample_event
unfolding find_row
held_found = refl

sample-IsProcessable :
    IsProcessable default_settings sample_event false noon sample_connection sample_profile
      (memory.tables sample_session)
unfolding is_queued has_active_lock is_relevant find_mapping first_mapping find_connection
    profile_matches supports
sample-IsProcessable = record {
  eligible = refl;
  unlocked = refl;
  attempts_left = omega arith;
  relevant = refl;
  mapped = refl;
}

held-IsProcessable :
    IsProcessable default_settings sample_event false noon sample_connection held_profile
      (memory.tables held_session)
unfolding is_queued has_active_lock is_relevant find_mapping first_mapping find_connection
    profile_matches supports
held-IsProcessable = record {
  eligible = refl;
  unlocked = refl;
  attempts_left = omega arith;
  relevant = refl;
  mapped = refl;
}

sample-IsSound : IsSound default_settings sample_event
unfolding is_processing
sample-IsSound = record { not_processing = refl; attempts_bounded = omega arith }

sample-QueueIsSound : QueueIsSound default_settings (memory.tables sample_session)
unfolding is_processing
sample-QueueIsSound j x h =
    All-find_row (λ (e : WebhookEvent). e.id) (IsSound default_settings) j
      (sample_event ∷ second_event ∷ []) x
      (sample-IsSound, (record { not_processing = refl; attempts_bounded = omega arith }, tt)) h

process_webhook_event_once_lem_example :
    let run =
      (run_of_event memory failing_sync default_settings sample_event sample_connection
        sample_profile noon sample_session).0 in
    let (result, s') =
      process_webhook_event_once memory failing_sync default_settings 11 false false noon noon
        sample_session in
    (result ≡ returned (settled_result 11 7 run))
    × (find_event 11 (memory.tables s')
        ≡ some (settled_row 5 noon run (link_event 3 7 sample_event)))
    × (committed memory s' ≡ memory.tables s')
process_webhook_event_once_lem_example =
    process_webhook_event_once_lem memory failing_sync default_settings sample_event false noon noon
      sample_connection sample_profile sample_session sample_found sample-IsProcessable

process-IsSound_example :
    (e' : WebhookEvent) × (find_event 11 (
        memory.tables
          (process_webhook_event_once memory failing_sync default_settings 11 false false noon noon
            sample_session).1)
      ≡ some e')
    × IsSound default_settings e'
process-IsSound_example =
    process-IsSound memory failing_sync default_settings sample_event false noon noon sample_session
      sample_found sample-IsSound

process_dry_commits_nothing_example :
    memory.rollback
      (process_webhook_event_once memory working_sync default_settings 11 false true noon noon
        sample_session).1
    ≡ memory.rollback sample_session
process_dry_commits_nothing_example =
    process_dry_commits_nothing memory working_sync default_settings 11 false noon noon
      sample_session

process-other_example :
    find_event 12 (
      memory.tables
        (process_webhook_event_once memory failing_sync default_settings 11 false false noon noon
          sample_session).1)
    ≡ find_event 12 (memory.tables sample_session)
process-other_example =
    process-other memory failing_sync default_settings sample_event false noon noon sample_session
      12 sample_found (λ h. omega arith)

process-QueueIsSound_example : QueueIsSound default_settings (
    memory.tables
      (process_webhook_event_once memory failing_sync default_settings 11 false false noon noon
        sample_session).1)
process-QueueIsSound_example =
    process-QueueIsSound memory failing_sync default_settings 11 false noon noon sample_session
      sample-QueueIsSound

run_event_queue_once_total_example :
    (summary : EventQueueRunResult) × ((run_event_queue_once memory failing_sync default_settings 25
        false false noon noon sample_session).0
      ≡ returned summary)
    × (summary.queued_count
        ≡ length (selected memory failing_sync default_settings false 25 noon sample_session))
    × (summary.attempted_count ≡ summary.queued_count)
    × (summary.processed_count + summary.skipped_count + summary.failed_count
        ≡ summary.queued_count)
run_event_queue_once_total_example =
    run_event_queue_once_total memory failing_sync default_settings 25 false noon noon
      sample_session

run_event_queue_once-QueueIsSound_example : QueueIsSound default_settings (
    memory.tables
      (run_event_queue_once memory failing_sync default_settings 25 false false noon noon
        sample_session).1)
run_event_queue_once-QueueIsSound_example =
    run_event_queue_once-QueueIsSound memory failing_sync default_settings 25 false noon noon
      sample_session sample-QueueIsSound

dry_round-raises_locked_example :
    (run_event_queue_once memory working_sync default_settings 25 true false noon noon
      held_session).0
    ≡ raised (sync_profile_locked "Sync profile already has an active lock.")
unfolding find_row has_active_lock find_queued_events
dry_round-raises_locked_example =
    dry_round-raises_locked memory working_sync default_settings 25 noon noon held_session
      sample_event (second_event ∷ []) sample_connection held_profile refl held_found
      held-IsProcessable refl refl refl

abbrev no_conflict : MemorySession → Option MemorySession
no_conflict s = none

abbrev delivered : Result (WebhookEvent × Bool) × MemorySession
delivered =
    enqueue_webhook_event memory sample_encodings no_conflict 13 sample_delivery [] "not_configured"
      true noon sample_session

abbrev delivered_event : WebhookEvent
delivered_event =
    event_of memory sample_encodings no_conflict 13 sample_delivery [] "not_configured" noon
      (memory.tables sample_session)

find_queued_events_lem_example :
    let t = memory.tables sample_session in
    let es = find_queued_events 1 noon t in
    (later : List WebhookEvent) × (others : List WebhookEvent) × Perm
      ((es ++ later) ++ others)
      t.webhook_events
    × All (IsEligible noon) (es ++ later)
    × All (λ e. ¬ IsEligible noon e) others
    × IsChronological (es ++ later)
    × (length es ≡ min 1 (length (es ++ later)))
find_queued_events_lem_example = find_queued_events_lem 1 noon (memory.tables sample_session)

find_mapping_lem_example :
    IsFirst
      (some "company-1")
      "project-1"
      rfi
      (sample_connection ∷ [])
      (sample_profile ∷ [])
      (find_mapping (some "company-1") (some "project-1") rfi (memory.tables sample_session))
find_mapping_lem_example =
    find_mapping_lem (some "company-1") "project-1" rfi (memory.tables sample_session)
