-- ===== src/Sync/Run.antt =====
-- app/services/intake_sync.py: the loop over the items of a sync, and its dry run. What the loop flushes
-- step by step is one `write` of the tables at the end, also where a step raises: nothing else reads them
-- in between.
use procore_intake_bridge.Sync.Rows.{
  content_of, kept_id, stored_record, is_request_object, manifest_object, write_object,
  clear_attachments, add_attachment, assign_read,
}
use procore_intake_bridge.Base.{
  ℕ, String, true, false, Option, none, some, List, [], ◌∷◌, ◌++◌, length, update_row,
}
use procore_intake_bridge.Base.Keyed.{find_by, write_by}
use procore_intake_bridge.Exceptions.{Exception, Result, returned, raised}
use procore_intake_bridge.Models.{Instant, DmsaConnection, IntakeRecord, SyncRun}
use procore_intake_bridge.Database.{Tables}
use procore_intake_bridge.Polling.{SyncSummary}
use procore_intake_bridge.Sync.Source.{FixtureItem, FixtureAttachment, Fixtures, manifest_length}
use procore_intake_bridge.Sync.Store.{
  SourceKey, same_source, source_of, entry_source, RecordContent, AttachmentPlanRequest,
  AttachmentPlan, Storage, Keys, attachment_request,
}

abbrev pub find_record : SourceKey → Tables → Option IntakeRecord
find_record source t = find_by source_of same_source source t.intake_records

module _ (fixtures : Fixtures) (storage : Storage) (keys : Keys) (connection : DmsaConnection)
    (sync_profile_id : Option ℕ) (now : Instant) where
  -- `create_attachment_manifest_record` with its plan.
  abbrev pub write_manifest : AttachmentPlanRequest → AttachmentPlan → Tables → Tables
  write_manifest request plan t = record t {
    attachment_objects =
        write_object (is_request_object request)
          (manifest_object storage (keys.object_key t) request plan) t.attachment_objects;
  }

  -- The attachments of an item, none where all went through.
  unfoldable pub store_attachments :
      ℕ → ℕ → String × FixtureItem → List FixtureAttachment → Tables → Option Exception × Tables
  store_attachments record_id run_id entry [] t = (none, t)
  store_attachments record_id run_id entry (attachment ∷ attachments) t =
      let request =
        attachment_request connection.id (some record_id) (some run_id) sync_profile_id entry
          attachment in
      elim (storage.plan_attachment_storage request) [
        | raised e ↦ (some e, t)
        | returned plan ↦
            store_attachments record_id run_id entry attachments
              (write_manifest request plan (add_attachment record_id attachment t))
      ]

  abbrev pub write_record : SourceKey → RecordContent → Tables → Tables
  write_record source content t = record t {
    intake_records =
        write_by source_of same_source source (stored_record (keys.record_key t) source content now)
          t.intake_records;
  }

  -- The record of an item with a date that cannot be read: one that is stored already keeps what was
  -- assigned before, a new one was not added.
  abbrev pub assign_existing : String × FixtureItem → Option IntakeRecord → Tables → Tables
  assign_existing entry none t = t
  assign_existing entry (some existing) t = record t {
    intake_records =
        update_row (λ (r : IntakeRecord). r.id) existing.id (assign_read fixtures entry now)
          t.intake_records;
  }

  -- One item: its record, and then its attachments.
  unfoldable pub store_item : ℕ → String × FixtureItem → Tables → Option Exception × Tables
  unfolding store_attachments
  store_item run_id entry t = elim (content_of fixtures run_id entry) [
    | raised e ↦ (some e, assign_existing entry (find_record (entry_source entry) t) t)
    | returned content ↦
        let existing = find_record (entry_source entry) t in
        store_attachments (kept_id (keys.record_key t) existing) run_id entry entry.1.attachments
          (clear_attachments existing (write_record (entry_source entry) content t))
  ]

  unfoldable pub store_items : ℕ → List (String × FixtureItem) → Tables → Option Exception × Tables
  unfolding store_item
  store_items run_id [] t = (none, t)
  store_items run_id (entry ∷ entries) t =
      let (failure, t1) = store_item run_id entry t in
      elim failure [ some e ↦ (some e, t1) | none ↦ store_items run_id entries t1 ]

  abbrev pub add_run : ℕ → Tables → Tables
  add_run run_id t = record t {
    sync_runs =
        t.sync_runs
        ++ (record {
          id = run_id;
          connection_id = connection.id;
          completed = false;
          record_count = 0;
          attachment_count = 0;
        }
            ∷ []);
  }

  abbrev pub complete_run : ℕ → List (String × FixtureItem) → Tables → Tables
  complete_run run_id entries t = record t {
    sync_runs =
        update_row (λ (r : SyncRun). r.id) run_id
          (λ r. record r {
            completed = true;
            record_count = length entries;
            attachment_count = manifest_length entries;
          })
          t.sync_runs;
  }

  abbrev pub summary_of : Option ℕ → List (String × FixtureItem) → SyncSummary
  summary_of run_id entries = record {
    sync_run_id = run_id;
    record_count = length entries;
    attachment_count = manifest_length entries;
  }

  -- A sync that is not dry, on the tables.
  unfoldable pub store_all : List (String × FixtureItem) → Tables → Result SyncSummary × Tables
  unfolding store_items
  store_all entries t =
      let run_id = keys.run_key t in
      let (failure, t1) = store_items run_id entries (add_run run_id t) in
      elim failure [
        | some e ↦ (raised e, t1)
        | none ↦ (returned (summary_of (some run_id) entries), complete_run run_id entries t1)
      ]

  -- `attachment_plan_result(None, request)` for the attachments of a dry run: what the first plan that
  -- fails raises.
  unfoldable pub plan_attachments : String × FixtureItem → List FixtureAttachment → Option Exception
  plan_attachments entry [] = none
  plan_attachments entry (attachment ∷ attachments) =
      let rest = plan_attachments entry attachments in
      elim (storage.plan_attachment_storage
        (attachment_request connection.id none none sync_profile_id entry attachment)) [
          | raised e ↦ some e
          | returned plan ↦ rest
        ]

  unfoldable pub plan_items : List (String × FixtureItem) → Option Exception
  unfolding plan_attachments
  plan_items [] = none
  plan_items (entry ∷ entries) =
      let rest = plan_items entries in
      elim (plan_attachments entry entry.1.attachments) [ some e ↦ some e | none ↦ rest ]

  unfoldable pub dry_result : List (String × FixtureItem) → Result SyncSummary
  unfolding plan_items
  dry_result entries = elim (plan_items entries) [
    | some e ↦ raised e
    | none ↦ returned (summary_of none entries)
  ]
