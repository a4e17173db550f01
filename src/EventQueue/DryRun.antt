-- ===== src/EventQueue/DryRun.antt =====
-- A dry run of an event (app/services/event_queue.py with `dry_run=True`): it commits nothing, and an
-- exception of the run of the profile is not caught.
use procore_intake_bridge.Polling.Effects.{run-eq-run_found}
use procore_intake_bridge.Polling.Profiles.{has_active_lock}
use procore_intake_bridge.EventQueue.Shape.{
  IsProcessable, process_missing, process-eq-process_found,
}
use procore_intake_bridge.Database.Writes.{
  find_event, rollback-modify_event, find_profile, modify_event, tables-modify_event,
}
use procore_intake_bridge.EventQueue.Events.{find_mapping, link_event}
use procore_intake_bridge.Polling.Outcome.{dry_run_unchanged}
use procore_intake_bridge.Polling.Run.{SyncProfileRunResult, run_found, run_sync_profile_once}
use procore_intake_bridge.Exceptions.{Result, returned, raised, sync_profile_locked}
use procore_intake_bridge.Models.{WebhookEvent, Instant, DmsaConnection, SyncProfile, mock}
use procore_intake_bridge.EventQueue.Process.{
  finish_dry_event, process_linked, process_mapped, process_found, mark_unless_dry,
  process_webhook_event_once, EventProcessingResult,
}
use procore_intake_bridge.Models.Settings.{Settings}
use procore_intake_bridge.Polling.{IntakeSync}
use procore_intake_bridge.Base.{
  ℕ, ◌≡◌, Bool, Option, true, ◌∙◌, arith, Option-cases, some, ap, inl, false, none, inr, refl,
}
use procore_intake_bridge.Database.{Database}

module _ (db : Database) (intake : IntakeSync db) (settings : Settings) where
  open db use {Session, tables, commit, rollback}

  finish_dry_event_lem :
      (i profile_id : ℕ) (before : Option ℕ) (run : Result SyncProfileRunResult) (s : Session)
      → (finish_dry_event db intake settings i profile_id before run s).1 ≡ s
  unfolding finish_dry_event
  finish_dry_event_lem i profile_id before (returned run) s = ground arith
  finish_dry_event_lem i profile_id before (raised e) s = refl

  process_linked-dry :
      (i profile_id : ℕ) (now : Instant) (s : Session)
      → (process_linked db intake settings i profile_id true now s).1 ≡ s
  unfolding process_linked
  process_linked-dry i profile_id now s =
      finish_dry_event_lem i profile_id _ _ _
      ∙ dry_run_unchanged db intake settings profile_id (some mock) false now none s

  process_mapped-dry :
      (i : ℕ) (m : Option (DmsaConnection × SyncProfile)) (now clock : Instant) (s : Session)
      → rollback (process_mapped db intake settings i m true now clock s).1 ≡ rollback s
  unfolding process_mapped mark_unless_dry
  process_mapped-dry i none now clock s = refl
  process_mapped-dry i (some (c, p)) now clock s =
      ap rollback (process_linked-dry i p.id now _)
      ∙ rollback-modify_event db i (link_event c.id p.id) s

  process_found-dry :
      (e : WebhookEvent) (force : Bool) (now clock : Instant) (s : Session)
      → rollback (process_found db intake settings e force true now clock s).1 ≡ rollback s
  unfolding process_found mark_unless_dry
  process_found-dry e force now clock s = ground (
    arith,
    process_mapped-dry e.id
        (find_mapping e.procore_company_id e.procore_project_id e.resource_type (tables s)) now
        clock s,
  )

  -- A dry run commits nothing, on any branch and for any event: what a rollback goes back to is what
  -- it was before.
  pub process_dry_commits_nothing :
      (i : ℕ) (force : Bool) (now clock : Instant) (s : Session)
      → rollback (process_webhook_event_once db intake settings i force true now clock s).1
        ≡ rollback s
  process_dry_commits_nothing i force now clock s = elim (Option-cases (find_event i (tables s))) [
    | inl missing ↦
        ap (λ (out : Result EventProcessingResult × Session). rollback out.1)
          (process_missing db intake settings i force true now clock s missing)
    | inr (e, found) ↦
        rw (process-eq-process_found db intake settings i force true now clock s e found)
          (process_found-dry e force now clock s)
  ]

  run_held :
      (p : SyncProfile) (dry : Bool) (now : Instant) (s : Session)
      → find_profile p.id (tables s) ≡ some p
      → p.enabled ≡ true
      → has_active_lock p.locked_at now settings.sync_lock_timeout_minutes ≡ true
      → run_sync_profile_once db intake settings p.id (some mock) dry false now none s
        ≡ (raised (sync_profile_locked "Sync profile already has an active lock."), s)
  unfolding run_found
  run_held p dry now s found enabled held =
      run-eq-run_found db intake settings p.id (some mock) dry false now none s p found
      ∙ ground arith

  -- Where the profile of a processable event is locked by another worker, the dry run of the event
  -- raises the lock error of the profile, and not the one that the round over the queue catches.
  pub process_dry-raises_locked :
      (e : WebhookEvent) (force : Bool) (now clock : Instant) (c : DmsaConnection) (p : SyncProfile)
      (s : Session)
      → find_event e.id (tables s) ≡ some e
      → IsProcessable settings e force now c p (tables s)
      → find_profile p.id (tables s) ≡ some p
      → p.enabled ≡ true
      → has_active_lock p.locked_at now settings.sync_lock_timeout_minutes ≡ true
      → (process_webhook_event_once db intake settings e.id force true now clock s).0
        ≡ raised (sync_profile_locked "Sync profile already has an active lock.")
  unfolding process_found process_mapped process_linked finish_dry_event
  process_dry-raises_locked e force now clock c p s found ok profile enabled held =
      let s1 = modify_event db e.id (link_event c.id p.id) s in
      let same : find_profile p.id (tables s1) ≡ some p =
        ap (find_profile p.id) (tables-modify_event db e.id (link_event c.id p.id) s) ∙ profile in
      ap (λ (out : Result EventProcessingResult × Session). out.0)
        (process-eq-process_found db intake settings e.id force true now clock s e found)
      ∙ ground (arith, ok.mapped, run_held p true now s1 same enabled held)
