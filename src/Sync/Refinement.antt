-- ===== src/Sync/Refinement.antt =====
-- The sync as an update of a map: an abstract view of the records by their source keys.
use procore_intake_bridge.Sync.Rows.{kept_id, content_of, clear_attachments, stored_record}
use procore_intake_bridge.Base.{
  ℕ, ◌≡◌, refl, ◌↔◌, String, true, Option, none, some, List, [], ◌∷◌, arith, eq_iff, if◌then◌else◌,
  Bool-cases, Option-cases, ◌≢◌, inl, inr, ap, sym, ◌∙◌,
}
use procore_intake_bridge.Base.Keyed.{find_by, find_by-write_by_same, find_by-write_by_other}
use procore_intake_bridge.Polling.{SyncSummary}
use procore_intake_bridge.Exceptions.{raised-ne-returned, Result, returned, raised, Result-cases}
use procore_intake_bridge.Models.{IntakeRecord, DmsaConnection, Instant}
use procore_intake_bridge.Database.{Tables}
use procore_intake_bridge.Sync.Source.{FixtureItem, Fixtures, FixtureAttachment}
use procore_intake_bridge.Sync.Store.{
  SourceKey, same_source, entry_source, RecordContent, Storage, Keys, attachment_request, source_of,
}
use procore_intake_bridge.Sync.Run.{
  store_item, store_items, store_all, add_run, find_record, store_attachments, write_record,
}

-- What is known of each source item.
abbrev pub SourceMap : Type 0
SourceMap = SourceKey → Option RecordContent

abbrev pub record_content : IntakeRecord → RecordContent
record_content r = record {
  number = r.number;
  title = r.title;
  status = r.status;
  due_date = r.due_date;
  received_at = r.received_at;
  source_updated_at = r.source_updated_at;
  raw_payload_json = r.raw_payload_json;
  attachment_count = r.attachment_count;
  sync_run_id = r.sync_run_id;
}

abbrev pub content_or_none : Option IntakeRecord → Option RecordContent
content_or_none none = none
content_or_none (some r) = some (record_content r)

abbrev pub source_map : Tables → SourceMap
source_map t source = content_or_none (find_record source t)

-- The specification of one item and of a sync: later items of a key replace earlier ones, and a key
-- without an item keeps what it had.
abbrev pub put : SourceKey → Result RecordContent → SourceMap → SourceMap
put source (raised e) m key = m key
put source (returned content) m key = if same_source source key then some content else m key

unfoldable pub put_all : Fixtures → ℕ → List (String × FixtureItem) → SourceMap → SourceMap
put_all fixtures run_id [] m = m
put_all fixtures run_id (entry ∷ entries) m =
    put_all fixtures run_id entries (put (entry_source entry) (content_of fixtures run_id entry) m)

same_source_iff : (a b : SourceKey) → (same_source a b ≡ true) ↔ (a ≡ b)
unfolding same_source
same_source_iff a b = (
  λ h. ground (
    arith,
    h,
    (eq_iff a.source_type b.source_type).0,
    (eq_iff a.procore_project_id b.procore_project_id).0,
    (eq_iff a.procore_item_id b.procore_item_id).0,
  ),
  λ h. rw h (
      ground (
        arith,
        (eq_iff b.source_type b.source_type).1 refl,
        (eq_iff b.procore_project_id b.procore_project_id).1 refl,
        (eq_iff b.procore_item_id b.procore_item_id).1 refl,
      )),
)

put-cong :
    (source : SourceKey) (r : Result RecordContent) (m n : SourceMap)
    → ((key : SourceKey) → m key ≡ n key)
    → (key : SourceKey) → put source r m key ≡ put source r n key
put-cong source (raised e) m n h key = h key
put-cong source (returned content) m n h key =
    ap (λ rest. if same_source source key then some content else rest) (h key)

some-ne-none : {A : Type 0} {a : A} → some a ≢ none
some-ne-none h = cc

put_all-cong :
    (fixtures : Fixtures) (run_id : ℕ) (entries : List (String × FixtureItem)) (m n : SourceMap)
    → ((key : SourceKey) → m key ≡ n key)
    → (key : SourceKey)
    → put_all fixtures run_id entries m key ≡ put_all fixtures run_id entries n key
unfolding put_all
put_all-cong fixtures run_id [] m n h key = h key
put_all-cong fixtures run_id (entry ∷ entries) m n h key =
    put_all-cong fixtures run_id entries _ _
      (put-cong (entry_source entry) (content_of fixtures run_id entry) m n h) key

module _ (fixtures : Fixtures) (storage : Storage) (keys : Keys) (connection : DmsaConnection)
    (sync_profile_id : Option ℕ) (now : Instant) where
  store_attachments-records :
      (record_id run_id : ℕ) (entry : String × FixtureItem) (attachments : List FixtureAttachment)
      (t : Tables)
      → (store_attachments fixtures storage keys connection sync_profile_id now record_id run_id
          entry attachments t).1.intake_records
        ≡ t.intake_records
  unfolding store_attachments
  store_attachments-records record_id run_id entry [] t = refl
  store_attachments-records record_id run_id entry (attachment ∷ attachments) t =
      elim (Result-cases (
        storage.plan_attachment_storage (
          attachment_request connection.id (some record_id) (some run_id) sync_profile_id entry
            attachment))) [
              | inl (plan, planned) ↦
                  rw (planned, store_attachments)
                    (store_attachments-records record_id run_id entry attachments _)
              | inr (e, failed) ↦ rw (failed, store_attachments) refl
            ]

  clear-records :
      (existing : Option IntakeRecord) (t : Tables)
      → (clear_attachments existing t).intake_records ≡ t.intake_records
  clear-records none t = refl
  clear-records (some r) t = refl

  write-map :
      (source : SourceKey) (content : RecordContent) (t : Tables) (key : SourceKey)
      → source_map
          (write_record fixtures storage keys connection sync_profile_id now source content t)
          key
        ≡ put source (returned content) (source_map t) key
  unfolding stored_record
  write-map source content t key = elim (Bool-cases (same_source source key)) [
    | inl own ↦ rw own (
        ap
          (λ k. content_or_none (
            find_by source_of same_source k
              (write_record fixtures storage keys connection sync_profile_id now source content
                t).intake_records))
          (sym ((same_source_iff source key).0 own))
        ∙ ap content_or_none (
            find_by-write_by_same source_of same_source same_source_iff source _ t.intake_records
              (λ o. refl)))
    | inr not_own ↦ rw not_own (
        ap content_or_none (
          find_by-write_by_other source_of same_source same_source_iff source key _ t.intake_records
            (λ o. refl) not_own))
  ]

  store_item-map :
      (run_id : ℕ) (entry : String × FixtureItem) (t : Tables) (key : SourceKey)
      → (store_item fixtures storage keys connection sync_profile_id now run_id entry t).0 ≡ none
      → source_map
          (store_item fixtures storage keys connection sync_profile_id now run_id entry t).1
          key
        ≡ put (entry_source entry) (content_of fixtures run_id entry) (source_map t) key
  unfolding store_item
  store_item-map run_id entry t key h = elim (Result-cases (content_of fixtures run_id entry)) [
    | inr (e, failed) ↦ absurd (some-ne-none (rw (failed, store_item) at h))
    | inl (content, read) ↦
        let existing = find_record (entry_source entry) t in
        let written =
          write_record fixtures storage keys connection sync_profile_id now (entry_source entry)
            content t in
        rw (read, store_item)
          (ap (λ rows. content_or_none (find_by source_of same_source key rows))
              (store_attachments-records (kept_id (keys.record_key t) existing) run_id entry
                  entry.1.attachments (clear_attachments existing written)
                ∙ clear-records existing written)
            ∙ write-map (entry_source entry) content t key)
  ]

  store_items-map :
      (run_id : ℕ) (entries : List (String × FixtureItem)) (t : Tables) (key : SourceKey)
      → (store_items fixtures storage keys connection sync_profile_id now run_id entries t).0 ≡ none
      → source_map
          (store_items fixtures storage keys connection sync_profile_id now run_id entries t).1
          key
        ≡ put_all fixtures run_id entries (source_map t) key
  unfolding store_items put_all
  store_items-map run_id [] t key h = refl
  store_items-map run_id (entry ∷ entries) t key h =
      let one = store_item fixtures storage keys connection sync_profile_id now run_id entry t in
      elim (Option-cases one.0) [
        | inr (e, failed) ↦ absurd (some-ne-none (rw (failed, store_items) at h))
        | inl stored ↦
            rw (stored, store_items)
              (store_items-map run_id entries one.1 key (rw (stored, store_items) at h)
                ∙ put_all-cong fixtures run_id entries _ _
                    (λ k. store_item-map run_id entry t k stored) key)
      ]

  -- A sync that returns updates the records as a map from source keys to contents: every item that it
  -- collected is put under its key in their order, a later one of the same key replacing an earlier
  -- one, and what stands under other keys is left.
  pub store_all-put_all :
      (entries : List (String × FixtureItem)) (t : Tables) (summary : SyncSummary) (key : SourceKey)
      → (store_all fixtures storage keys connection sync_profile_id now entries t).0
        ≡ returned summary
      → source_map (store_all fixtures storage keys connection sync_profile_id now entries t).1 key
        ≡ put_all fixtures (keys.run_key t) entries (source_map t) key
  unfolding store_all
  store_all-put_all entries t summary key h =
      elim (Option-cases
        (store_items fixtures storage keys connection sync_profile_id now (keys.run_key t) entries
          (add_run fixtures storage keys connection sync_profile_id now (keys.run_key t) t)).0) [
            | inr (e, failed) ↦ absurd (raised-ne-returned (rw (failed, store_all) at h))
            | inl stored ↦
                rw (stored, store_all) (store_items-map (keys.run_key t) entries _ key stored)
          ]
