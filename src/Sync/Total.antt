-- ===== src/Sync/Total.antt =====
-- When a sync of app/services/intake_sync.py returns, and with what.
use procore_intake_bridge.Sync.Rows.{content_of}
use procore_intake_bridge.Base.{
  ℕ, ◌≡◌, refl, String, Bool, true, false, ◌||◌, Option, some, none, List, [], ◌∷◌, All, str_eq,
}
use procore_intake_bridge.Exceptions.{Result, returned, raised, raised-ne-returned}
use procore_intake_bridge.Polling.{SyncSummary}
use procore_intake_bridge.Models.{Instant, DmsaConnection}
use procore_intake_bridge.Database.{Tables, Database}
use procore_intake_bridge.Sync.Source.{
  FixtureItem, FixtureAttachment, Fixtures, collect_fixture_records,
}
use procore_intake_bridge.Sync.Store.{
  SourceKey, RecordContent, AttachmentPlanRequest, AttachmentPlan, Storage, Keys,
  attachment_request,
}
use procore_intake_bridge.Sync.Run.{
  store_attachments, store_item, store_items, store_all, summary_of, add_run,
}
use procore_intake_bridge.Sync.Connection.{SyncOptions, keep, sync_collected, sync_connection}
use procore_intake_bridge.Sync.Refinement.{source_map, put_all}
use procore_intake_bridge.Sync.Contents.{sync_connection-put_all}

-- The dates of an item can be read.
abbrev pub IsReadable : Fixtures → ℕ → String × FixtureItem → Type 0
IsReadable fixtures run_id entry =
    (content : RecordContent) × (content_of fixtures run_id entry ≡ returned content)

-- Every attachment gets a place.
abbrev pub IsPlanning : Storage → Type 0
IsPlanning storage =
    (request : AttachmentPlanRequest)
    → (plan : AttachmentPlan) × (storage.plan_attachment_storage request ≡ returned plan)

module _ (fixtures : Fixtures) (storage : Storage) (keys : Keys) (connection : DmsaConnection)
    (sync_profile_id : Option ℕ) (now : Instant) (plans : IsPlanning storage) where
  store_attachments_total :
      (record_id run_id : ℕ) (entry : String × FixtureItem) (attachments : List FixtureAttachment)
      (t : Tables)
      → (store_attachments fixtures storage keys connection sync_profile_id now record_id run_id
          entry attachments t).0
        ≡ none
  unfolding store_attachments
  store_attachments_total record_id run_id entry [] t = refl
  store_attachments_total record_id run_id entry (attachment ∷ attachments) t =
      let (plan, planned) = plans (
        attachment_request connection.id (some record_id) (some run_id) sync_profile_id entry
          attachment) in
      rw (planned, store_attachments) (store_attachments_total record_id run_id entry attachments _)

  store_item_total :
      (run_id : ℕ) (entry : String × FixtureItem) (t : Tables)
      → IsReadable fixtures run_id entry
      → (store_item fixtures storage keys connection sync_profile_id now run_id entry t).0 ≡ none
  unfolding store_item
  store_item_total run_id entry t (content, read) =
      rw (read, store_item) (store_attachments_total _ run_id entry entry.1.attachments _)

  store_items_total :
      (run_id : ℕ) (entries : List (String × FixtureItem)) (t : Tables)
      → All (IsReadable fixtures run_id) entries
      → (store_items fixtures storage keys connection sync_profile_id now run_id entries t).0 ≡ none
  unfolding store_items
  store_items_total run_id [] t h = refl
  store_items_total run_id (entry ∷ entries) t h =
      rw (store_item_total run_id entry t h.0, store_items) (store_items_total run_id entries _ h.1)

  store_all_total :
      (entries : List (String × FixtureItem)) (t : Tables)
      → All (IsReadable fixtures (keys.run_key t)) entries
      → (store_all fixtures storage keys connection sync_profile_id now entries t).0
        ≡ returned (
            summary_of fixtures storage keys connection sync_profile_id now
              (some (keys.run_key t))
              entries)
  unfolding store_all
  store_all_total entries t h =
      rw
        (
          store_items_total (keys.run_key t) entries
              (add_run fixtures storage keys connection sync_profile_id now (keys.run_key t) t) h,
          store_all,
        )
        refl

module _ (fixtures : Fixtures) (storage : Storage) (keys : Keys) (db : Database) where
  open db use {Session, tables}

  keep_total :
      (asked : Bool) (outcome : Result SyncSummary × Tables) (s : Session) (summary : SyncSummary)
      → outcome.0 ≡ returned summary
      → (keep fixtures storage keys db asked outcome s).0 ≡ returned summary
  unfolding keep
  keep_total true (returned x, t) s summary h = h
  keep_total false (returned x, t) s summary h = h
  keep_total asked (raised e, t) s summary h = absurd (raised-ne-returned h)

  sync_connection-returns :
      (connection : DmsaConnection) (options : SyncOptions) (now : Instant) (s : Session)
      (entries : List (String × FixtureItem))
      → (str_eq options.mode "fixture" || str_eq options.mode "mock") ≡ true
      → collect_fixture_records fixtures connection options.procore_project_id options.sync_rfis
          options.sync_submittals options.updated_after
        ≡ returned entries
      → All (IsReadable fixtures (keys.run_key (tables s))) entries
      → IsPlanning storage
      → (sync_connection fixtures storage keys db connection false options now s).0
        ≡ returned (
            summary_of fixtures storage keys connection options.sync_profile_id now
              (some (keys.run_key (tables s)))
              entries)
  unfolding sync_connection sync_collected
  sync_connection-returns connection options now s entries mode collected readable plans =
      simp (mode, collected)
        (keep_total options.commit _ s _ (
          store_all_total fixtures storage keys connection options.sync_profile_id now plans entries
            (tables s) readable))

  -- A persisted sync in the fixture or mock mode, which collects its items, can read their dates and
  -- finds a place for every attachment, returns, with the number of the items and of their attachments.
  -- After it the records are, as a map from source keys to contents, what they were, with every item
  -- put under its key in their order, a later one of the same key replacing an earlier one.
  pub sync_connection_total :
      (connection : DmsaConnection) (options : SyncOptions) (now : Instant) (s : Session)
      (entries : List (String × FixtureItem)) (key : SourceKey)
      → (str_eq options.mode "fixture" || str_eq options.mode "mock") ≡ true
      → collect_fixture_records fixtures connection options.procore_project_id options.sync_rfis
          options.sync_submittals options.updated_after
        ≡ returned entries
      → All (IsReadable fixtures (keys.run_key (tables s))) entries
      → IsPlanning storage
      → let (result, s1) =
          sync_connection fixtures storage keys db connection false options now s in
        (result
          ≡ returned (
              summary_of fixtures storage keys connection options.sync_profile_id now
                (some (keys.run_key (tables s)))
                entries))
        × (source_map (tables s1) key
            ≡ put_all fixtures (keys.run_key (tables s)) entries (source_map (tables s)) key)
  sync_connection_total connection options now s entries key mode collected readable plans =
      let returns =
        sync_connection-returns connection options now s entries mode collected readable plans in
      (
        returns,
        sync_connection-put_all fixtures storage keys db connection options now s entries _ key
            collected returns,
      )
