-- ===== src/Sync/Interface.antt =====
-- The sync of the fixtures is what the polling worker asks for (`IntakeSync`).
use procore_intake_bridge.Polling.{SyncSummary, IntakeSync, SyncRequest}
use procore_intake_bridge.Sync.Connection.{
  keep, sync_collected, sync_connection, SyncOptions, worker_sync, worker_options,
}
use procore_intake_bridge.Base.{
  ◌≡◌, ◌∙◌, refl, String, List, Option-cases, inl, inr, ap, Bool, false, true, ◌⊎◌, Bool-cases,
  str_eq, ◌||◌, find_row,
}
use procore_intake_bridge.Exceptions.{
  value_error, Result-cases, Result, Exception, returned, raised,
}
use procore_intake_bridge.Models.{Instant, DmsaConnection}
use procore_intake_bridge.Database.{Tables, Database}
use procore_intake_bridge.Sync.Source.{FixtureItem, Fixtures, collect_fixture_records}
use procore_intake_bridge.Sync.Store.{Storage, Keys}
use procore_intake_bridge.Sync.Frame.{IsFrame, IsFrame-refl, store_all-IsFrame}

module _ (fixtures : Fixtures) (storage : Storage) (keys : Keys) (db : Database) where
  open db use {Session, tables, write, rollback, tables-write, rollback-write}

  -- What a step may have written: nothing that a rollback keeps, and only tables of the sync.
  abbrev IsUncommitted : Session → Session → Type 0
  IsUncommitted s s1 = (rollback s1 ≡ rollback s) × IsFrame (tables s) (tables s1)

  nothing_written : (s : Session) → IsUncommitted s s
  nothing_written s = (refl, IsFrame-refl (tables s))

  write-IsFrame :
      (s : Session) (t : Tables) → IsFrame (tables s) t → IsFrame (tables s) (tables (write t s))
  write-IsFrame s t h = record {
    profiles_kept = ap (λ (u : Tables). u.sync_profiles) (tables-write t s) ∙ h.profiles_kept;
    events_kept = ap (λ (u : Tables). u.webhook_events) (tables-write t s) ∙ h.events_kept;
  }

  keep-IsUncommitted :
      (outcome : Result SyncSummary × Tables) (s : Session)
      → IsFrame (tables s) outcome.1
      → IsUncommitted s (keep fixtures storage keys db false outcome s).1
  unfolding keep
  keep-IsUncommitted (returned summary, t) s h = (rollback-write t s, write-IsFrame s t h)
  keep-IsUncommitted (raised e, t) s h = (rollback-write t s, write-IsFrame s t h)

  collected-IsUncommitted :
      (connection : DmsaConnection) (dry_run : Bool) (options : SyncOptions) (now : Instant)
      (entries : List (String × FixtureItem)) (s : Session)
      → options.commit ≡ false
      → IsUncommitted s
          (sync_collected fixtures storage keys db connection dry_run options now entries s).1
  unfolding sync_collected
  collected-IsUncommitted connection true options now entries s off = nothing_written s
  collected-IsUncommitted connection false options now entries s off = rw off (
      keep-IsUncommitted _ s (
        store_all-IsFrame fixtures storage keys connection options.sync_profile_id now entries
          (tables s)))

  pub sync_connection-cases :
      (connection : DmsaConnection) (dry_run : Bool) (options : SyncOptions) (now : Instant)
      (s : Session)
      → ((e : Exception) × (sync_connection fixtures storage keys db connection dry_run options now
              s
            ≡ (raised e, s)))
        ⊎ ((entries : List (String × FixtureItem)) × (collect_fixture_records fixtures connection
                options.procore_project_id options.sync_rfis options.sync_submittals
                options.updated_after
              ≡ returned entries)
            × (sync_connection fixtures storage keys db connection dry_run options now s
                ≡ sync_collected fixtures storage keys db connection dry_run options now entries s))
  unfolding sync_connection
  sync_connection-cases connection dry_run options now s =
      elim (Bool-cases (str_eq options.mode "fixture" || str_eq options.mode "mock")) [
        | inr live ↦ inl (value_error "Live intake sync is not implemented in Phase A3.", simp live)
        | inl fixture ↦
            elim (Result-cases (
              collect_fixture_records fixtures connection options.procore_project_id
                options.sync_rfis options.sync_submittals options.updated_after)) [
                  | inr (e, failed) ↦ inl (e, simp (fixture, failed))
                  | inl (entries, read) ↦ inr (entries, read, simp (fixture, read))
                ]
      ]

  connection-IsUncommitted :
      (connection : DmsaConnection) (dry_run : Bool) (options : SyncOptions) (now : Instant)
      (s : Session)
      → options.commit ≡ false
      → IsUncommitted s
          (sync_connection fixtures storage keys db connection dry_run options now s).1
  connection-IsUncommitted connection dry_run options now s off =
      elim (sync_connection-cases connection dry_run options now s) [
        | inl (e, out) ↦ rw out (nothing_written s)
        | inr (entries, read, out) ↦
            rw out (collected-IsUncommitted connection dry_run options now entries s off)
      ]

  connection-dry_run :
      (connection : DmsaConnection) (options : SyncOptions) (now : Instant) (s : Session)
      → (sync_connection fixtures storage keys db connection true options now s).1 ≡ s
  unfolding sync_collected
  connection-dry_run connection options now s =
      elim (sync_connection-cases connection true options now s) [
        | inl (e, out) ↦ ap (λ (o : Result SyncSummary × Session). o.1) out
        | inr (entries, read, out) ↦ ap (λ (o : Result SyncSummary × Session). o.1) out
      ]

  -- What the worker asks of a sync, on every branch: a rollback goes back to what it did before, the
  -- profiles and the events are left as they are, and a dry run changes nothing at all.
  pub worker_sync_lem :
      (now : Instant) (request : SyncRequest) (s : Session)
      → let s1 = (worker_sync fixtures storage keys db now request s).1 in
        (rollback s1 ≡ rollback s)
        × ((tables s1).sync_profiles ≡ (tables s).sync_profiles)
        × ((tables s1).webhook_events ≡ (tables s).webhook_events)
        × (request.dry_run ≡ true → s1 ≡ s)
  unfolding worker_sync worker_options
  worker_sync_lem now request s =
      elim (Option-cases
        (find_row (λ (c : DmsaConnection). c.id) request.connection_id (tables s).connections)) [
          | inl missing ↦ rw (missing, worker_sync) (refl, refl, refl, λ dry. refl)
          | inr (connection, found) ↦
              let quiet =
                connection-IsUncommitted connection request.dry_run
                  (worker_options fixtures storage keys db request) now s refl in
              rw (found, worker_sync)
                (
                  quiet.0,
                  quiet.1.profiles_kept,
                  quiet.1.events_kept,
                  λ dry.
                      ap
                        (λ flag.
                          (sync_connection fixtures storage keys db connection flag
                            (worker_options fixtures storage keys db request) now s).1)
                        dry
                      ∙ connection-dry_run connection
                          (worker_options fixtures storage keys db request) now s,
                )
        ]

  -- The sync of the fixtures as the interface of the worker.
  abbrev pub fixture_intake : Instant → IntakeSync db
  fixture_intake now = record {
    sync_connection = worker_sync fixtures storage keys db now;
    sync-rollback = λ request s. (worker_sync_lem now request s).0;
    sync-sync_profiles = λ request s. (worker_sync_lem now request s).1;
    sync-webhook_events = λ request s. (worker_sync_lem now request s).2;
    sync-dry_run = λ request s. (worker_sync_lem now request s).3;
  }
