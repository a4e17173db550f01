-- ===== src/EventQueue/Round/Sound.antt =====
-- A persisted round keeps the queue sound, and a dry round ends at an event whose profile is locked.
use procore_intake_bridge.EventQueue.Round.Total.{selected}
use procore_intake_bridge.EventQueue.DryRun.{process_dry-raises_locked}
use procore_intake_bridge.EventQueue.Frame.{QueueIsSound, process-QueueIsSound}
use procore_intake_bridge.EventQueue.Events.{find_queued_events}
use procore_intake_bridge.EventQueue.Shape.{IsProcessable}
use procore_intake_bridge.Polling.Profiles.{has_active_lock}
use procore_intake_bridge.Database.Writes.{find_event, find_profile}
use procore_intake_bridge.Exceptions.{raised, sync_profile_locked}
use procore_intake_bridge.Models.{WebhookEvent, Instant, DmsaConnection, SyncProfile}
use procore_intake_bridge.Models.Settings.{Settings}
use procore_intake_bridge.Polling.{IntakeSync}
use procore_intake_bridge.EventQueue.Round.{
  Settings, WebhookEvent, skip_locked, Instant, raised, run_event, run_events, run_event_queue_once,
}
use procore_intake_bridge.Base.{
  ℕ, ◌≡◌, Bool, List, arith, some, ◌∷◌, false, inl, inr, [], subst, true, ◌⊎◌, sym,
}
use procore_intake_bridge.Database.{Database}

module _ (db : Database) (intake : IntakeSync db) (settings : Settings) where
  open db use {Session, tables}

  run_events-session :
      (force dry : Bool) (now clock : Instant) (e : WebhookEvent) (es : List WebhookEvent)
      (s : Session)
      → let s1 = (run_event db intake settings force dry now clock e s).1 in
        ((run_events db intake settings force dry now clock (e ∷ es) s).1 ≡ s1)
        ⊎ ((run_events db intake settings force dry now clock (e ∷ es) s).1
            ≡ (run_events db intake settings force dry now clock es s1).1)
  unfolding run_events
  run_events-session force dry now clock e es s = ground arith

  run_events-QueueIsSound :
      (force : Bool) (now clock : Instant) (es : List WebhookEvent) (s : Session)
      → QueueIsSound settings (tables s)
      → QueueIsSound settings (tables (run_events db intake settings force false now clock es s).1)
  unfolding run_event
  run_events-QueueIsSound force now clock [] s sound = unfold run_events in sound
  run_events-QueueIsSound force now clock (e ∷ es) s sound =
      let first = process-QueueIsSound db intake settings e.id force now clock s sound in
      elim (run_events-session force false now clock e es s) [
        | inl ended ↦ subst (λ s'. QueueIsSound settings (tables s')) (sym ended) first
        | inr went_on ↦
            subst (λ s'. QueueIsSound settings (tables s')) (sym went_on)
              (run_events-QueueIsSound force now clock es _ first)
      ]

  -- A persisted round keeps the queue sound, also where it ends by an exception.
  pub run_event_queue_once-QueueIsSound :
      (limit : ℕ) (force : Bool) (now clock : Instant) (s : Session)
      → QueueIsSound settings (tables s)
      → QueueIsSound settings
          (tables (run_event_queue_once db intake settings limit false force now clock s).1)
  unfolding run_event_queue_once
  run_event_queue_once-QueueIsSound limit force now clock s sound =
      run_events-QueueIsSound force now clock (selected db intake settings force limit now s) s
        sound

  -- A dry round raises the lock error of a profile and gives no result at all, where the first event
  -- that it selects is processable and its profile is enabled and locked by another worker.
  pub dry_round-raises_locked :
      (limit : ℕ) (now clock : Instant) (s : Session) (e : WebhookEvent) (es : List WebhookEvent)
      (c : DmsaConnection) (p : SyncProfile)
      → find_queued_events limit now (tables s) ≡ e ∷ es
      → find_event e.id (tables s) ≡ some e
      → IsProcessable settings e false now c p (tables s)
      → find_profile p.id (tables s) ≡ some p
      → p.enabled ≡ true
      → has_active_lock p.locked_at now settings.sync_lock_timeout_minutes ≡ true
      → (run_event_queue_once db intake settings limit true false now clock s).0
        ≡ raised (sync_profile_locked "Sync profile already has an active lock.")
  unfolding run_event_queue_once run_events run_event skip_locked
  dry_round-raises_locked limit now clock s e es c p queue found ok profile enabled held = ground (
    arith,
    queue,
    process_dry-raises_locked db intake settings e false now clock c p s found ok profile enabled
        held,
  )
