-- ===== src/EventQueue/Outcome.antt =====
-- What the processing of an event returns and leaves behind, on every branch.
use procore_intake_bridge.Polling.Shape.{run-committed, run-webhook_events}
use procore_intake_bridge.Polling.Profiles.{sanitize_error_code}
use procore_intake_bridge.EventQueue.Shape.{
  processing_session, IsProcessable, run_of_event, linked_row, IsMark, process_shape,
  process-eq-finish_event,
}
use procore_intake_bridge.Database.Writes.{find_event, modify_event}
use procore_intake_bridge.EventQueue.Settled.{
  release-committed, modify_event-row, settled_row, finish_event-row,
}
use procore_intake_bridge.EventQueue.Events.{
  mark_processing, is_processing, lock_event, link_event, processing_failure_message,
}
use procore_intake_bridge.EventQueue.Process.{
  finish_event, EventProcessingResult, fail_event, has_succeeded, synced_result, EventOutcome,
  plain_result, process_webhook_event_once,
}
use procore_intake_bridge.Models.{WebhookEvent, Instant, DmsaConnection, SyncProfile, mock}
use procore_intake_bridge.Polling.Run.{SyncProfileRunResult}
use procore_intake_bridge.Polling.{IntakeSync}
use procore_intake_bridge.Models.Settings.{Settings}
use procore_intake_bridge.Exceptions.{Result, returned, type_name, raised}
use procore_intake_bridge.Base.{
  ℕ, ◌≡◌, false, if◌then◌else◌, ◌≤◌, arith, Bool, Bool-cases, some, inl, inr, refl, String, ◌∙◌, ap,
  ◌<◌, sym, find_row, none,
}
use procore_intake_bridge.Database.{Database, committed}

-- The result by how the run of the profile ended.
abbrev pub settled_result : ℕ → ℕ → Result SyncProfileRunResult → EventProcessingResult
settled_result i profile_id (returned run) =
    if has_succeeded run
    then synced_result i EventOutcome.processed profile_id run
        "Event processed through the fixture sync profile."
    else plain_result i EventOutcome.failed (some profile_id)
        (sanitize_error_code "EventProcessingError" "RuntimeError") processing_failure_message
settled_result i profile_id (raised x) =
    plain_result i EventOutcome.failed (some profile_id)
      (sanitize_error_code "EventProcessingError" (type_name x)) processing_failure_message

-- Between two processings: no event is left in processing, and no count of failures passes the limit.
pub record IsSound (settings : Settings) (e : WebhookEvent) : Type 0 where
  pub not_processing : is_processing e.processing_status ≡ false
  pub attempts_bounded : e.failure_count ≤ settings.event_max_attempts

module _ (db : Database) (intake : IntakeSync db) (settings : Settings) where
  open db use {Session, tables, commit, rollback}

  pub finish_event-result :
      (i profile_id : ℕ) (now : Instant) (run : Result SyncProfileRunResult) (s : Session)
      → (finish_event db intake settings i profile_id now run s).0
        ≡ returned (settled_result i profile_id run)
  unfolding finish_event fail_event type_name
  finish_event-result i profile_id now (returned run) s = ground arith
  finish_event-result i profile_id now (raised x) s = refl

  finish_event-committed :
      (i profile_id : ℕ) (now : Instant) (run : Result SyncProfileRunResult) (s : Session)
      → let s' = (finish_event db intake settings i profile_id now run s).1 in
        committed db s' ≡ tables s'
  unfolding finish_event fail_event
  finish_event-committed i profile_id now (raised x) s = release-committed db intake settings i _
  finish_event-committed i profile_id now (returned run) s = elim (Bool-cases (has_succeeded run)) [
    | inl good ↦ rw good (release-committed db intake settings i _)
    | inr bad ↦ rw bad (release-committed db intake settings i _)
  ]

  processing-row :
      (e : WebhookEvent) (c : DmsaConnection) (p : SyncProfile) (now : Instant) (s : Session)
      → find_event e.id (tables s) ≡ some e
      → find_event e.id (tables (processing_session db intake settings e c p now s))
        ≡ some (mark_processing (lock_event now settings.event_worker_id (link_event c.id p.id e)))
  unfolding mark_processing lock_event link_event
  processing-row e c p now s found =
      modify_event-row db intake settings mark_processing (λ x. refl) e.id _ _
        (modify_event-row db intake settings (lock_event now settings.event_worker_id) (λ x. refl)
          e.id _ _ (linked_row db intake settings e c p s found))

  settled_row-processing :
      (max_attempts : ℕ) (now : Instant) (run : Result SyncProfileRunResult) (owner : String)
      (e : WebhookEvent)
      → settled_row max_attempts now run (mark_processing (lock_event now owner e))
        ≡ settled_row max_attempts now run e
  unfolding mark_processing lock_event
  settled_row-processing max_attempts now (returned run) owner e =
      elim (Bool-cases (has_succeeded run)) [ inl good ↦ rw good | inr bad ↦ rw bad ]
  settled_row-processing max_attempts now (raised x) owner e = refl

  pub processing-committed :
      (e : WebhookEvent) (c : DmsaConnection) (p : SyncProfile) (now : Instant) (s : Session)
      → let s1 = processing_session db intake settings e c p now s in committed db s1 ≡ tables s1
  processing-committed e c p now s = db.rollback-commit _ ∙ sym (db.tables-commit _)

  ran-row :
      (e : WebhookEvent) (c : DmsaConnection) (p : SyncProfile) (now : Instant) (s : Session)
      → find_event e.id (tables s) ≡ some e
      → find_event e.id (tables (run_of_event db intake settings e c p now s).1)
        ≡ some (mark_processing (lock_event now settings.event_worker_id (link_event c.id p.id e)))
  ran-row e c p now s found =
      ap (find_row (λ (x : WebhookEvent). x.id) e.id) (
        run-webhook_events db intake settings p.id (some mock) false now none
          (processing_session db intake settings e c p now s))
      ∙ processing-row e c p now s found

  -- A processable event runs its profile once, and the processing returns however that run ends. The
  -- row is then settled by the end of the run, unlocked and linked to the profile, and committed.
  pub process_webhook_event_once_lem :
      (e : WebhookEvent) (force : Bool) (now clock : Instant) (c : DmsaConnection) (p : SyncProfile)
      (s : Session)
      → find_event e.id (tables s) ≡ some e
      → IsProcessable settings e force now c p (tables s)
      → let run = (run_of_event db intake settings e c p now s).0 in
        let (result, s') =
          process_webhook_event_once db intake settings e.id force false now clock s in
        (result ≡ returned (settled_result e.id p.id run))
        × (find_event e.id (tables s')
            ≡ some (settled_row settings.event_max_attempts now run (link_event c.id p.id e)))
        × (committed db s' ≡ tables s')
  process_webhook_event_once_lem e force now clock c p s found ok =
      let (run, s2) = run_of_event db intake settings e c p now s in
      let saved =
        run-committed db intake settings p.id (some mock) false now none
          (processing_session db intake settings e c p now s) (processing-committed e c p now s) in
      let linked = link_event c.id p.id e in
      rw (process-eq-finish_event db intake settings e force now clock c p s found ok) (
        finish_event-result e.id p.id now run s2,
        finish_event-row db intake settings e.id p.id now run s2 _ (ran-row e c p now s found) saved
            ∙ ap some (
                settled_row-processing settings.event_max_attempts now run settings.event_worker_id
                  linked),
        finish_event-committed e.id p.id now run s2,
      )

  settled-IsSound :
      (now : Instant) (run : Result SyncProfileRunResult) (e : WebhookEvent)
      → e.failure_count < settings.event_max_attempts
      → IsSound settings (settled_row settings.event_max_attempts now run e)
  unfolding is_processing
  settled-IsSound now (returned run) e h = ground arith
  settled-IsSound now (raised x) e h = ground arith

  marked-row :
      (e : WebhookEvent) (mark : WebhookEvent → WebhookEvent) (s : Session)
      → IsMark mark
      → find_event e.id (tables s) ≡ some e
      → find_event e.id (tables (commit (modify_event db e.id mark s))) ≡ some (mark e)
  marked-row e mark s h found = modify_event-row db intake settings mark h.id_kept e.id s e found

  -- The row of the event after any persisted processing of it.
  pub process-row :
      (e : WebhookEvent) (force : Bool) (now clock : Instant) (s : Session)
      → find_event e.id (tables s) ≡ some e
      → (e' : WebhookEvent) × (find_event e.id
            (tables (process_webhook_event_once db intake settings e.id force false now clock s).1)
          ≡ some e')
        × (IsSound settings e → IsSound settings e')
  unfolding link_event
  process-row e force now clock s found =
      elim (process_shape db intake settings e force now clock s found) [
        | inl same ↦ (e, ap (λ s'. find_event e.id (tables s')) same ∙ found, λ sound. sound)
        | inr (inl m) ↦ (
          m.mark e,
          ap (λ s'. find_event e.id (tables s')) m.leaves ∙ marked-row e m.mark s m.is_mark found,
          λ sound. record {
            not_processing = m.is_mark.ends e;
            attempts_bounded = rw (m.is_mark.count_kept e) sound.attempts_bounded;
          },
        )
        | inr (inr r) ↦
            let (_, row, _) =
              process_webhook_event_once_lem e force now clock r.connection r.profile s found
                r.processable in
            (
              _,
              row,
              λ _.
                  settled-IsSound now _ (link_event r.connection.id r.profile.id e)
                    r.processable.attempts_left,
            )
      ]

  -- Whatever branch the processing takes, and whether it returns or raises, a sound event is sound
  -- after it: it is not left in processing, and its failures do not pass the limit.
  pub process-IsSound :
      (e : WebhookEvent) (force : Bool) (now clock : Instant) (s : Session)
      → find_event e.id (tables s) ≡ some e
      → IsSound settings e
      → (e' : WebhookEvent) × (find_event e.id
            (tables (process_webhook_event_once db intake settings e.id force false now clock s).1)
          ≡ some e')
        × IsSound settings e'
  process-IsSound e force now clock s found sound =
      let (e', row, keeps) = process-row e force now clock s found in (e', row, keeps sound)
