-- ===== src/EventQueue/Shape.antt =====
-- The ways in which the processing of an event can go: it stops and writes nothing, it marks the row
-- and stops, or it locks the event and runs its profile.
use procore_intake_bridge.Polling.Effects.{lock_free_of_inactive}
use procore_intake_bridge.Polling.Profiles.{has_active_lock}
use procore_intake_bridge.Polling.Run.{SyncProfileRunResult, run_sync_profile_once}
use procore_intake_bridge.Exceptions.{Result, raised, lookup_error}
use procore_intake_bridge.Database.Writes.{
  modify_event, find_event, tables-modify_event, find_event-update,
}
use procore_intake_bridge.EventQueue.Process.{
  process_linked, process_webhook_event_once, process_found, process_locked, process_mapped,
  finish_event, mark_unless_dry, EventProcessingResult,
}
use procore_intake_bridge.Polling.{IntakeSync}
use procore_intake_bridge.EventQueue.Events.{
  mark_failed, mark_skipped, is_processing, link_event, acquire_event_lock, is_queued,
  mark_processing, lock_event, is_relevant, find_mapping,
}
use procore_intake_bridge.Models.{WebhookEvent, DmsaConnection, Instant, SyncProfile, mock}
use procore_intake_bridge.Models.Settings.{Settings}
use procore_intake_bridge.Base.{
  ℕ, ◌≡◌, Bool, false, String, refl, some, ◌||◌, true, arith, ◌∙◌, ◌<◌, none, Option, ◌⊎◌, inl,
  Bool-cases, inr, leb, subst, sym,
}
use procore_intake_bridge.Database.{Database, Tables}

-- The tests of `process_webhook_event_once` let the event `e` through to the profile `p`.
pub record IsProcessable (settings : Settings) (e : WebhookEvent) (force : Bool) (now : Instant)
    (c : DmsaConnection) (p : SyncProfile) (t : Tables) : Type 0 where
  pub eligible : (is_queued e.processing_status || force) ≡ true
  pub unlocked : has_active_lock e.locked_at now settings.event_lock_timeout_minutes ≡ false
  pub attempts_left : e.failure_count < settings.event_max_attempts
  pub relevant : is_relevant e.resource_type ≡ true
  pub mapped :
      find_mapping e.procore_company_id e.procore_project_id e.resource_type t ≡ some (c, p)

-- A change of a row that ends its processing: the key and the count of failures stay.
pub record IsMark (mark : WebhookEvent → WebhookEvent) : Type 0 where
  pub id_kept : (e : WebhookEvent) → (mark e).id ≡ e.id
  pub count_kept : (e : WebhookEvent) → (mark e).failure_count ≡ e.failure_count
  pub lock_kept : (e : WebhookEvent) → (mark e).locked_at ≡ e.locked_at
  pub ends : (e : WebhookEvent) → is_processing (mark e).processing_status ≡ false

mark_failed-IsMark : (code : String) → IsMark (mark_failed code)
unfolding mark_failed is_processing
mark_failed-IsMark code = record {
  id_kept = λ e. refl;
  count_kept = λ e. refl;
  lock_kept = λ e. refl;
  ends = λ e. refl;
}

mark_skipped-IsMark : (clock : Instant) (code : String) → IsMark (mark_skipped clock code)
unfolding mark_skipped is_processing
mark_skipped-IsMark clock code = record {
  id_kept = λ e. refl;
  count_kept = λ e. refl;
  lock_kept = λ e. refl;
  ends = λ e. refl;
}

module _ (db : Database) (intake : IntakeSync db) (settings : Settings) where
  open db use {Session, tables, commit, rollback}

  -- The session in which the profile of a processable event runs.
  abbrev pub processing_session :
      WebhookEvent → DmsaConnection → SyncProfile → Instant → Session → Session
  processing_session e c p now s = commit (
      modify_event db e.id mark_processing (
        commit (
          modify_event db e.id (lock_event now settings.event_worker_id)
            (modify_event db e.id (link_event c.id p.id) s))))

  abbrev pub run_of_event :
      WebhookEvent
      → DmsaConnection
      → SyncProfile
      → Instant
      → Session
      → Result SyncProfileRunResult × Session
  run_of_event e c p now s =
      run_sync_profile_once db intake settings p.id (some mock) false false now none
        (processing_session e c p now s)

  pub linked_row :
      (e : WebhookEvent) (c : DmsaConnection) (p : SyncProfile) (s : Session)
      → find_event e.id (tables s) ≡ some e
      → find_event e.id (tables (modify_event db e.id (link_event c.id p.id) s))
        ≡ some (link_event c.id p.id e)
  unfolding link_event
  linked_row e c p s found =
      rw (tables-modify_event db e.id (link_event c.id p.id) s)
        (find_event-update (link_event c.id p.id) (λ x. refl) e.id (tables s) e found)

  pub process_linked-eq :
      (e : WebhookEvent) (c : DmsaConnection) (p : SyncProfile) (now : Instant) (s : Session)
      → find_event e.id (tables s) ≡ some e
      → has_active_lock e.locked_at now settings.event_lock_timeout_minutes ≡ false
      → process_linked db intake settings e.id p.id false now
          (modify_event db e.id (link_event c.id p.id) s)
        ≡ (let (run, s2) = run_of_event e c p now s in
            finish_event db intake settings e.id p.id now run s2)
  unfolding process_linked process_locked acquire_event_lock link_event
  process_linked-eq e c p now s found inactive = ground (
    arith,
    linked_row e c p s found,
    lock_free_of_inactive e.locked_at now settings.event_lock_timeout_minutes inactive,
  )

  pub process_missing :
      (i : ℕ) (force dry : Bool) (now clock : Instant) (s : Session)
      → find_event i (tables s) ≡ none
      → process_webhook_event_once db intake settings i force dry now clock s
        ≡ (raised (lookup_error "Webhook event not found."), s)
  unfolding process_webhook_event_once
  process_missing i force dry now clock s missing = rw (missing, process_webhook_event_once)

  pub process-eq-process_found :
      (i : ℕ) (force dry : Bool) (now clock : Instant) (s : Session) (e : WebhookEvent)
      → find_event i (tables s) ≡ some e
      → process_webhook_event_once db intake settings i force dry now clock s
        ≡ process_found db intake settings e force dry now clock s
  unfolding process_webhook_event_once
  process-eq-process_found i force dry now clock s e found = rw (found, process_webhook_event_once)

  -- A processable event is locked, run and settled.
  pub process-eq-finish_event :
      (e : WebhookEvent) (force : Bool) (now clock : Instant) (c : DmsaConnection) (p : SyncProfile)
      (s : Session)
      → find_event e.id (tables s) ≡ some e
      → IsProcessable settings e force now c p (tables s)
      → process_webhook_event_once db intake settings e.id force false now clock s ≡ (
          let (run, s2) = run_of_event e c p now s in
          finish_event db intake settings e.id p.id now run s2)
  unfolding process_found process_mapped
  process-eq-finish_event e force now clock c p s found ok =
      process-eq-process_found e.id force false now clock s e found
      ∙ ground (arith, ok.mapped, process_linked-eq e c p now s found ok.unlocked)

  -- The row is marked, and no profile is run.
  pub record Marked (e : WebhookEvent) (s s' : Session) : Type 0 where
    pub mark : WebhookEvent → WebhookEvent
    pub is_mark : IsMark mark
    pub leaves : s' ≡ commit (modify_event db e.id mark s)

  -- An event runs under a profile that is mapped to it.
  pub record IsRun (e : WebhookEvent) (force : Bool) (now : Instant) (s : Session) : Type 0 where
    pub connection : DmsaConnection
    pub profile : SyncProfile
    pub processable : IsProcessable settings e force now connection profile (tables s)

  mapped_shape :
      (e : WebhookEvent) (now clock : Instant) (s : Session)
      (m : Option (DmsaConnection × SyncProfile))
      → Marked e s (process_mapped db intake settings e.id m false now clock s).1
        ⊎ ((c : DmsaConnection) × (p : SyncProfile) × (m ≡ some (c, p)))
  unfolding process_mapped mark_unless_dry
  mapped_shape e now clock s none =
      inl (record {
        mark = mark_skipped clock _;
        is_mark = mark_skipped-IsMark clock _;
        leaves = refl;
      })
  mapped_shape e now clock s (some (c, p)) = inr (c, p, refl)

  to_mapped :
      (e : WebhookEvent) (force : Bool) (now clock : Instant) (s : Session)
      → (is_queued e.processing_status || force) ≡ true
      → has_active_lock e.locked_at now settings.event_lock_timeout_minutes ≡ false
      → leb settings.event_max_attempts e.failure_count ≡ false
      → is_relevant e.resource_type ≡ true
      → process_found db intake settings e force false now clock s
        ≡ process_mapped db intake settings e.id
            (find_mapping e.procore_company_id e.procore_project_id e.resource_type (tables s))
            false
            now
            clock
            s
  unfolding process_found
  to_mapped e force now clock s eligible inactive left relevant = ground arith

  found_shape :
      (e : WebhookEvent) (force : Bool) (now clock : Instant) (s : Session)
      → let s' = (process_found db intake settings e force false now clock s).1 in
        (s' ≡ s) ⊎ (Marked e s s' ⊎ IsRun e force now s)
  unfolding process_found mark_unless_dry
  found_shape e force now clock s = elim (Bool-cases (is_queued e.processing_status || force)) [
    | inr other_status ↦ inl (ground arith)
    | inl eligible ↦
        elim (Bool-cases (has_active_lock e.locked_at now settings.event_lock_timeout_minutes)) [
          | inl held ↦ inl (ground arith)
          | inr inactive ↦ elim (Bool-cases (leb settings.event_max_attempts e.failure_count)) [
            | inl exhausted ↦ inr (
                inl (record {
                  mark = mark_failed "MaxAttemptsExceeded";
                  is_mark = mark_failed-IsMark "MaxAttemptsExceeded";
                  leaves = ground arith;
                }))
            | inr left ↦ elim (Bool-cases (is_relevant e.resource_type)) [
              | inr strange ↦ inr (
                  inl (record {
                    mark = mark_skipped clock "UnknownResourceType";
                    is_mark = mark_skipped-IsMark clock "UnknownResourceType";
                    leaves = ground arith;
                  }))
              | inl relevant ↦
                  elim (mapped_shape e now clock s (
                    find_mapping e.procore_company_id e.procore_project_id e.resource_type
                      (tables s))) [
                        | inl marked ↦ inr (
                            inl (
                              subst
                                (λ (out : Result EventProcessingResult × Session). Marked e s out.1)
                                (sym
                                  (to_mapped e force now clock s eligible inactive left relevant))
                                marked))
                        | inr (c, p, mapped) ↦ inr (
                            inr (record {
                              connection = c;
                              profile = p;
                              processable = record {
                                eligible = eligible;
                                unlocked = inactive;
                                attempts_left = ground arith;
                                relevant = relevant;
                                mapped = mapped;
                              };
                            }))
                      ]
            ]
          ]
        ]
  ]

  -- Of a persisted processing: nothing is written, the row is marked, or the event runs.
  pub process_shape :
      (e : WebhookEvent) (force : Bool) (now clock : Instant) (s : Session)
      → find_event e.id (tables s) ≡ some e
      → let s' = (process_webhook_event_once db intake settings e.id force false now clock s).1 in
        (s' ≡ s) ⊎ (Marked e s s' ⊎ IsRun e force now s)
  process_shape e force now clock s found =
      rw (process-eq-process_found e.id force false now clock s e found)
        (found_shape e force now clock s)
