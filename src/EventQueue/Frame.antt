-- ===== src/EventQueue/Frame.antt =====
-- A persisted processing of one event leaves the rows of the others, and keeps the queue sound.
use procore_intake_bridge.Polling.Shape.{run-committed, run-webhook_events}
use procore_intake_bridge.EventQueue.Shape.{
  processing_session, process_shape, run_of_event, process-eq-finish_event, process_missing,
}
use procore_intake_bridge.Polling.Run.{SyncProfileRunResult}
use procore_intake_bridge.EventQueue.Outcome.{
  IsSound, processing-committed, process-IsSound, process-row,
}
use procore_intake_bridge.Exceptions.{Exception, Result, raised, type_name, returned, runtime_error}
use procore_intake_bridge.Database.Writes.{
  find_event, modify_event, tables-modify_event, find_event-update_ne, find_event_own,
}
use procore_intake_bridge.EventQueue.Process.{
  fail_event, finish_event, process_webhook_event_once, has_succeeded, EventProcessingResult,
}
use procore_intake_bridge.EventQueue.Events.{
  release_event_lock, mark_processing, link_event, unlock_event, mark_attempt_failed,
  mark_processed, lock_event,
}
use procore_intake_bridge.Models.{WebhookEvent, Instant, DmsaConnection, SyncProfile, mock}
use procore_intake_bridge.Polling.{IntakeSync}
use procore_intake_bridge.Models.Settings.{Settings}
use native.Mathlib.Decide.{ℕ_discrete}
use mathlib.Core.Option.{some-injective}
use procore_intake_bridge.Base.{
  ℕ, ◌≡◌, Bool, ◌≢◌, some, false, refl, ◌∙◌, ap, inl, inr, Bool-cases, none, find_row, Option-cases,
  sym, subst, key-find_row,
}
use procore_intake_bridge.Database.{Database, Tables, committed}

-- Every event of the tables is sound.
abbrev pub QueueIsSound : Settings → Tables → Type 0
QueueIsSound settings t = (j : ℕ) (x : WebhookEvent) → find_event j t ≡ some x → IsSound settings x

module _ (db : Database) (intake : IntakeSync db) (settings : Settings) where
  open db use {Session, tables, commit, rollback}

  modify_event-other :
      (f : WebhookEvent → WebhookEvent)
      → ((e : WebhookEvent) → (f e).id ≡ e.id)
      → (i j : ℕ) (s : Session) → j ≢ i
      → find_event j (tables (commit (modify_event db i f s))) ≡ find_event j (tables s)
  modify_event-other f keeps i j s ne =
      simp (db.tables-commit, tables-modify_event) (find_event-update_ne f keeps i j (tables s) ne)

  release-other :
      (i j : ℕ) (s : Session)
      → j ≢ i
      → find_event j (tables (release_event_lock db i s)) ≡ find_event j (tables s)
  unfolding release_event_lock unlock_event
  release-other i j s ne = modify_event-other unlock_event (λ x. refl) i j s ne

  fail_event-other :
      (i j profile_id : ℕ) (now : Instant) (x : Exception) (s : Session)
      → j ≢ i
      → find_event j (tables (fail_event db intake settings i profile_id now x s).1)
        ≡ find_event j (committed db s)
  unfolding fail_event mark_attempt_failed
  fail_event-other i j profile_id now x s ne =
      release-other i j _ ne
      ∙ modify_event-other (mark_attempt_failed settings.event_max_attempts now (type_name x))
          (λ y. refl) i j (rollback s) ne

  finish_event-other :
      (i j profile_id : ℕ) (now : Instant) (run : Result SyncProfileRunResult) (s : Session)
      → j ≢ i
      → committed db s ≡ tables s
      → find_event j (tables (finish_event db intake settings i profile_id now run s).1)
        ≡ find_event j (tables s)
  unfolding finish_event mark_processed
  finish_event-other i j profile_id now (raised x) s ne k =
      fail_event-other i j profile_id now x s ne ∙ ap (find_event j) k
  finish_event-other i j profile_id now (returned run) s ne k =
      elim (Bool-cases (has_succeeded run)) [
        | inl good ↦
            rw good (
              release-other i j _ ne ∙ modify_event-other (mark_processed now) (λ y. refl) i j s ne)
        | inr bad ↦ rw bad (
            fail_event-other i j profile_id now (runtime_error "Fixture sync profile run failed.") s
              ne
            ∙ ap (find_event j) k)
      ]

  processing_session-other :
      (e : WebhookEvent) (c : DmsaConnection) (p : SyncProfile) (now : Instant) (s : Session)
      (j : ℕ)
      → j ≢ e.id
      → find_event j (tables (processing_session db intake settings e c p now s))
        ≡ find_event j (tables s)
  unfolding mark_processing lock_event link_event
  processing_session-other e c p now s j ne =
      modify_event-other mark_processing (λ x. refl) e.id j _ ne
      ∙ modify_event-other (lock_event now settings.event_worker_id) (λ x. refl) e.id j _ ne
      ∙ ap (find_event j) (tables-modify_event db e.id (link_event c.id p.id) s)
      ∙ find_event-update_ne (link_event c.id p.id) (λ x. refl) e.id j (tables s) ne

  -- The persisted processing of an event, on any branch, leaves the row of every other event.
  pub process-other :
      (e : WebhookEvent) (force : Bool) (now clock : Instant) (s : Session) (j : ℕ)
      → find_event e.id (tables s) ≡ some e
      → j ≢ e.id
      → find_event j
          (tables (process_webhook_event_once db intake settings e.id force false now clock s).1)
        ≡ find_event j (tables s)
  process-other e force now clock s j found ne =
      elim (process_shape db intake settings e force now clock s found) [
        | inl same ↦ ap (λ s'. find_event j (tables s')) same
        | inr (inl m) ↦
            ap (λ s'. find_event j (tables s')) m.leaves
            ∙ modify_event-other m.mark m.is_mark.id_kept e.id j s ne
        | inr (inr r) ↦
            let (run, s2) = run_of_event db intake settings e r.connection r.profile now s in
            let saved =
              run-committed db intake settings r.profile.id (some mock) false now none
                (processing_session db intake settings e r.connection r.profile now s)
                (processing-committed db intake settings e r.connection r.profile now s) in
            ap (λ (out : Result EventProcessingResult × Session). find_event j (tables out.1))
              (process-eq-finish_event db intake settings e force now clock r.connection r.profile s
                found r.processable)
            ∙ finish_event-other e.id j r.profile.id now run s2 ne saved
            ∙ ap (find_row (λ (x : WebhookEvent). x.id) j) (
                run-webhook_events db intake settings r.profile.id (some mock) false now none
                  (processing_session db intake settings e r.connection r.profile now s))
            ∙ processing_session-other e r.connection r.profile now s j ne
      ]

  process_own-QueueIsSound :
      (e : WebhookEvent) (force : Bool) (now clock : Instant) (s : Session)
      → find_event e.id (tables s) ≡ some e
      → QueueIsSound settings (tables s)
      → QueueIsSound settings
          (tables (process_webhook_event_once db intake settings e.id force false now clock s).1)
  process_own-QueueIsSound e force now clock s found sound j x h = elim (ℕ_discrete j e.id) [
    | yes same ↦
        let (e', row, ok) =
          process-IsSound db intake settings e force now clock s found (sound e.id e found) in
        let at_own =
          ap
            (λ k. find_event k (
              tables
                (process_webhook_event_once db intake settings e.id force false now clock s).1))
            (sym same)
          ∙ h in
        subst (IsSound settings) (some-injective _ _ (sym row ∙ at_own)) ok
    | no ne ↦ sound j x (sym (process-other e force now clock s j found ne) ∙ h)
  ]

  -- A persisted processing keeps the queue sound, whichever event it is asked for.
  pub process-QueueIsSound :
      (i : ℕ) (force : Bool) (now clock : Instant) (s : Session)
      → QueueIsSound settings (tables s)
      → QueueIsSound settings
          (tables (process_webhook_event_once db intake settings i force false now clock s).1)
  process-QueueIsSound i force now clock s sound = elim (Option-cases (find_event i (tables s))) [
    | inl missing ↦ rw (process_missing db intake settings i force false now clock s missing) sound
    | inr (e, found) ↦
        subst
          (λ k.
            QueueIsSound settings
              (tables (process_webhook_event_once db intake settings k force false now clock s).1))
          (key-find_row _ i (tables s).webhook_events e found)
          (process_own-QueueIsSound e force now clock s (find_event_own i (tables s) e found) sound)
  ]

  -- A persisted processing keeps every row of the queue.
  pub process-present :
      (e : WebhookEvent) (force : Bool) (now clock : Instant) (s : Session) (j : ℕ)
      (x : WebhookEvent)
      → find_event e.id (tables s) ≡ some e
      → find_event j (tables s) ≡ some x
      → (x' : WebhookEvent) × (find_event j
            (tables (process_webhook_event_once db intake settings e.id force false now clock s).1)
          ≡ some x')
  process-present e force now clock s j x found h = elim (ℕ_discrete j e.id) [
    | yes same ↦
        let (e', row, _) = process-row db intake settings e force now clock s found in
        (
          e',
          ap
                (λ k. find_event k (
                  tables
                    (process_webhook_event_once db intake settings e.id force false now clock s).1))
                same
              ∙ row,
        )
    | no ne ↦ (x, process-other e force now clock s j found ne ∙ h)
  ]
