-- ===== src/Sync/Contents.antt =====
-- What app/services/intake_sync.py leaves of the records after a sync of a connection.
use procore_intake_bridge.Base.{◌≡◌, ◌∙◌, sym, ap, String, Bool, true, false, List, inl, inr}
use procore_intake_bridge.Exceptions.{
  Result, returned, raised, raised-ne-returned, returned-injective,
}
use procore_intake_bridge.Models.{Instant, DmsaConnection}
use procore_intake_bridge.Database.{Tables, Database}
use procore_intake_bridge.Polling.{SyncSummary}
use procore_intake_bridge.Sync.Source.{FixtureItem, Fixtures, collect_fixture_records}
use procore_intake_bridge.Sync.Store.{SourceKey, Storage, Keys}
use procore_intake_bridge.Sync.Run.{store_all}
use procore_intake_bridge.Sync.Connection.{SyncOptions, keep, sync_collected, sync_connection}
use procore_intake_bridge.Sync.Refinement.{source_map, put_all, store_all-put_all}
use procore_intake_bridge.Sync.Interface.{sync_connection-cases}

module _ (fixtures : Fixtures) (storage : Storage) (keys : Keys) (db : Database) where
  open db use {Session, tables, write, commit, tables-write, tables-commit}

  keep-returned :
      (asked : Bool) (outcome : Result SyncSummary × Tables) (s : Session) (summary : SyncSummary)
      → (keep fixtures storage keys db asked outcome s).0 ≡ returned summary
      → (outcome.0 ≡ returned summary)
        × (tables (keep fixtures storage keys db asked outcome s).1 ≡ outcome.1)
  unfolding keep
  keep-returned true (returned x, t) s summary h = (h, tables-commit (write t s) ∙ tables-write t s)
  keep-returned false (returned x, t) s summary h = (h, tables-write t s)
  keep-returned true (raised e, t) s summary h = absurd (raised-ne-returned h)
  keep-returned false (raised e, t) s summary h = absurd (raised-ne-returned h)

  collected-put_all :
      (connection : DmsaConnection) (options : SyncOptions) (now : Instant) (s : Session)
      (entries : List (String × FixtureItem)) (summary : SyncSummary) (key : SourceKey)
      → (sync_collected fixtures storage keys db connection false options now entries s).0
        ≡ returned summary
      → source_map
          (tables
            (sync_collected fixtures storage keys db connection false options now entries s).1)
          key
        ≡ put_all fixtures (keys.run_key (tables s)) entries (source_map (tables s)) key
  unfolding sync_collected
  collected-put_all connection options now s entries summary key h =
      let outcome =
        store_all fixtures storage keys connection options.sync_profile_id now entries (tables s) in
      let (stored, same) = keep-returned options.commit outcome s summary h in
      ap (λ t. source_map t key) same
      ∙ store_all-put_all fixtures storage keys connection options.sync_profile_id now entries
          (tables s) summary key stored

  -- A persisted sync of a connection that returns, committed or not, updates the records as a map from
  -- source keys to contents: every item that it collected is put under its key in their order, a later
  -- one of the same key replacing an earlier one, and what stands under other keys is left.
  pub sync_connection-put_all :
      (connection : DmsaConnection) (options : SyncOptions) (now : Instant) (s : Session)
      (entries : List (String × FixtureItem)) (summary : SyncSummary) (key : SourceKey)
      → collect_fixture_records fixtures connection options.procore_project_id options.sync_rfis
          options.sync_submittals options.updated_after
        ≡ returned entries
      → (sync_connection fixtures storage keys db connection false options now s).0
        ≡ returned summary
      → source_map
          (tables (sync_connection fixtures storage keys db connection false options now s).1)
          key
        ≡ put_all fixtures (keys.run_key (tables s)) entries (source_map (tables s)) key
  sync_connection-put_all connection options now s entries summary key read h =
      elim (sync_connection-cases fixtures storage keys db connection false options now s) [
        | inl (e, out) ↦ absurd (raised-ne-returned (rw out at h))
        | inr (collected, again, out) ↦
            let same = returned-injective (sym again ∙ read) in
            rw out (
              collected-put_all connection options now s collected summary key (rw out at h)
              ∙ ap
                  (λ items.
                    put_all fixtures (keys.run_key (tables s)) items (source_map (tables s)) key)
                  same)
      ]
