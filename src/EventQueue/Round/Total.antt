-- ===== src/EventQueue/Round/Total.antt =====
-- A persisted round over the event queue returns, with one result for each selected event.
use procore_intake_bridge.Base.Sort.{All-sort}
use procore_intake_bridge.EventQueue.Frame.{process-present}
use procore_intake_bridge.EventQueue.Events.{
  is_queued, is_relevant, find_force_processable_events, find_queued_events, is_before,
}
use procore_intake_bridge.EventQueue.Shape.{
  process_linked-eq, run_of_event, process-eq-process_found,
}
use procore_intake_bridge.Polling.Profiles.{has_active_lock}
use procore_intake_bridge.Database.Writes.{find_event, find_event_own}
use procore_intake_bridge.EventQueue.Outcome.{settled_result, finish_event-result}
use procore_intake_bridge.Polling.Run.{SyncProfileRunResult}
use procore_intake_bridge.Exceptions.{Result, returned, raised}
use procore_intake_bridge.Models.{WebhookEvent, Instant, DmsaConnection, SyncProfile}
use procore_intake_bridge.Models.Settings.{Settings}
use procore_intake_bridge.Polling.{IntakeSync}
use procore_intake_bridge.EventQueue.Round.{
  is_processed, is_skipped, Settings, is_failed, WebhookEvent, Result, skip_locked, returned,
  Instant, raised, run_event, run_events, run_event_queue_once, queue_summary, EventQueueRunResult,
  summarised,
}
use procore_intake_bridge.EventQueue.Process.{
  EventProcessingResult, EventOutcome, plain_result, process_mapped, process_found, synced_result,
  process_webhook_event_once,
}
use procore_intake_bridge.Base.{
  ℕ, ◌+◌, ◌≡◌, ◌≢◌, count, Bool, List, Option, All, length, arith, some, ◌∷◌, false, Bool-cases,
  not, ◌&&◌, inl, inr, leb, refl, [], none, subst, All-map, ap, key-find_row, suc, ◌∙◌,
  has_row-find_row, All-take, if◌then◌else◌, All-has_row, true, All-of_select,
}
use procore_intake_bridge.Database.{Database}

abbrev IsPersisted : EventProcessingResult → Type 0
IsPersisted r = r.status ≢ EventOutcome.dry_run

counts_lem :
    (results : List EventProcessingResult)
    → All IsPersisted results
    → count is_processed results + count is_skipped results + count is_failed results
      ≡ length results
unfolding is_processed is_skipped is_failed count
counts_lem [] h = omega arith
counts_lem (r ∷ results) h = ground (arith, counts_lem results h.1, h.0)

module _ (db : Database) (intake : IntakeSync db) (settings : Settings) where
  open db use {Session, tables}

  finish_event-IsPersisted :
      (i profile_id : ℕ) (run : Result SyncProfileRunResult)
      → IsPersisted (settled_result i profile_id run)
  unfolding plain_result synced_result
  finish_event-IsPersisted i profile_id (returned run) = ground arith
  finish_event-IsPersisted i profile_id (raised x) = ground arith

  -- What the round records of a persisted processing of a present event.
  abbrev Recorded : WebhookEvent → Result EventProcessingResult → Type 0
  Recorded listed r =
      (result : EventProcessingResult) × (skip_locked listed r ≡ returned result)
      × IsPersisted result

  mapped-Recorded :
      (listed e : WebhookEvent) (m : Option (DmsaConnection × SyncProfile)) (now clock : Instant)
      (s : Session)
      → find_event e.id (tables s) ≡ some e
      → has_active_lock e.locked_at now settings.event_lock_timeout_minutes ≡ false
      → Recorded listed (process_mapped db intake settings e.id m false now clock s).0
  unfolding process_mapped skip_locked plain_result
  mapped-Recorded listed e none now clock s found inactive = (_, refl, ground arith)
  mapped-Recorded listed e (some (c, p)) now clock s found inactive =
      rw (process_linked-eq db intake settings e c p now s found inactive) (
        rw
          (finish_event-result db intake settings e.id p.id now
            (run_of_event db intake settings e c p now s).0
            (run_of_event db intake settings e c p now s).1)
          (
            _,
            refl,
            finish_event-IsPersisted e.id p.id (run_of_event db intake settings e c p now s).0,
          ))

  found-Recorded :
      (listed e : WebhookEvent) (force : Bool) (now clock : Instant) (s : Session)
      → find_event e.id (tables s) ≡ some e
      → Recorded listed (process_found db intake settings e force false now clock s).0
  unfolding process_found skip_locked plain_result
  found-Recorded listed e force now clock s found =
      elim (Bool-cases (not (is_queued e.processing_status) && not force)) [
        | inl other_status ↦ rw other_status (_, refl, ground arith)
        | inr eligible ↦
            rw eligible
              (elim (Bool-cases
                (has_active_lock e.locked_at now settings.event_lock_timeout_minutes)) [
                  | inl held ↦ rw held (_, refl, ground arith)
                  | inr inactive ↦
                      rw inactive
                        (elim (Bool-cases (leb settings.event_max_attempts e.failure_count)) [
                          | inl exhausted ↦ rw exhausted (_, refl, ground arith)
                          | inr left ↦
                              rw left (elim (Bool-cases (not (is_relevant e.resource_type))) [
                                | inl strange ↦ rw strange (_, refl, ground arith)
                                | inr relevant ↦
                                    rw relevant
                                      (mapped-Recorded listed e _ now clock s found inactive)
                              ])
                        ])
                ])
      ]

  run_event-returned :
      (listed : WebhookEvent) (force : Bool) (now clock : Instant) (s : Session) (e : WebhookEvent)
      → find_event listed.id (tables s) ≡ some e
      → (result : EventProcessingResult) × ((run_event db intake settings force false now clock
            listed s).0
          ≡ returned result)
        × IsPersisted result
  unfolding run_event
  run_event-returned listed force now clock s e found =
      rw (process-eq-process_found db intake settings listed.id force false now clock s e found)
        (found-Recorded listed e force now clock s (find_event_own listed.id (tables s) e found))

  abbrev IsPresent : Session → WebhookEvent → Type 0
  IsPresent s x = (e : WebhookEvent) × (find_event x.id (tables s) ≡ some e)

  run_event-IsPresent :
      (listed : WebhookEvent) (force : Bool) (now clock : Instant) (s : Session)
      → IsPresent s listed
      → (x : WebhookEvent) → IsPresent s x
      → IsPresent (run_event db intake settings force false now clock listed s).1 x
  unfolding run_event
  run_event-IsPresent listed force now clock s (e, found) x (y, h) =
      subst
        (λ k.
          IsPresent (process_webhook_event_once db intake settings k force false now clock s).1 x)
        (key-find_row _ listed.id (tables s).webhook_events e found)
        (process-present db intake settings e force now clock s x.id y
          (find_event_own listed.id (tables s) e found) h)

  run_events-cons :
      (force dry : Bool) (now clock : Instant) (e : WebhookEvent) (es : List WebhookEvent)
      (s : Session) (result : EventProcessingResult) (results : List EventProcessingResult)
      → (run_event db intake settings force dry now clock e s).0 ≡ returned result
      → (run_events db intake settings force dry now clock es
          (run_event db intake settings force dry now clock e s).1).0
        ≡ returned results
      → (run_events db intake settings force dry now clock (e ∷ es) s).0
        ≡ returned (result ∷ results)
  unfolding run_events
  run_events-cons force dry now clock e es s result results h k = ground (arith, h, k)

  run_events-returned :
      (force : Bool) (now clock : Instant) (es : List WebhookEvent) (s : Session)
      → All (IsPresent s) es
      → (results : List EventProcessingResult) × ((run_events db intake settings force false now
            clock es s).0
          ≡ returned results)
        × All IsPersisted results
        × (length results ≡ length es)
  unfolding run_events
  run_events-returned force now clock [] s h = ([], refl, tt, refl)
  run_events-returned force now clock (e ∷ es) s (own, rest) =
      let (result, r, kept) = run_event-returned e force now clock s own.0 own.1 in
      let s1 = (run_event db intake settings force false now clock e s).1 in
      let (results, rs, all_kept, size) = run_events-returned force now clock es s1 (
        All-map (IsPresent s) (IsPresent s1) (run_event-IsPresent e force now clock s own) es
          rest) in
      (
        result ∷ results,
        run_events-cons force false now clock e es s result results r rs,
        (kept, all_kept),
        ap suc size,
      )

  -- The events that a round selects.
  abbrev pub selected : Bool → ℕ → Instant → Session → List WebhookEvent
  selected force limit now s =
      if force
      then find_force_processable_events limit now (tables s)
      else find_queued_events limit now (tables s)

  All-IsPresent : (s : Session) → All (IsPresent s) (tables s).webhook_events
  All-IsPresent s =
      let rows = (tables s).webhook_events in
      All-map _ (IsPresent s) (λ x h. has_row-find_row _ x.id rows h) rows (All-has_row _ rows)

  selected-IsPresent :
      (force : Bool) (limit : ℕ) (now : Instant) (s : Session)
      → All (IsPresent s) (selected force limit now s)
  unfolding find_force_processable_events find_queued_events
  selected-IsPresent true limit now s =
      All-take (IsPresent s) limit _
        (All-sort is_before (IsPresent s) _ (All-of_select (IsPresent s) _ _ (All-IsPresent s)))
  selected-IsPresent false limit now s =
      All-take (IsPresent s) limit _
        (All-sort is_before (IsPresent s) _ (All-of_select (IsPresent s) _ _ (All-IsPresent s)))

  -- A persisted round returns, whatever the runs of the profiles do: every selected event has one
  -- result, and the processed, skipped and failed ones are all of them.
  pub run_event_queue_once_total :
      (limit : ℕ) (force : Bool) (now clock : Instant) (s : Session)
      → (summary : EventQueueRunResult) × ((run_event_queue_once db intake settings limit false
            force now clock s).0
          ≡ returned summary)
        × (summary.queued_count ≡ length (selected force limit now s))
        × (summary.attempted_count ≡ summary.queued_count)
        × (summary.processed_count + summary.skipped_count + summary.failed_count
            ≡ summary.queued_count)
  unfolding run_event_queue_once queue_summary
  run_event_queue_once_total limit force now clock s =
      let es = selected force limit now s in
      let (results, r, kept, size) =
        run_events-returned force now clock es s (selected-IsPresent force limit now s) in
      (
        queue_summary (length es) false results,
        ap (summarised (length es) false) r,
        refl,
        size,
        counts_lem results kept ∙ size,
      )
