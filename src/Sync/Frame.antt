-- ===== src/Sync/Frame.antt =====
-- The tables that app/services/intake_sync.py leaves alone.
use procore_intake_bridge.Sync.Rows.{content_of, clear_attachments, kept_id}
use procore_intake_bridge.Base.{
  ℕ, ◌≡◌, ◌∙◌, refl, String, Option, none, some, List, [], ◌∷◌, Option-cases, inl, inr,
}
use procore_intake_bridge.Exceptions.{Result-cases}
use procore_intake_bridge.Models.{Instant, DmsaConnection, IntakeRecord}
use procore_intake_bridge.Database.{Tables}
use procore_intake_bridge.Sync.Source.{FixtureItem, FixtureAttachment, Fixtures}
use procore_intake_bridge.Sync.Store.{Storage, Keys, attachment_request, entry_source}
use procore_intake_bridge.Sync.Run.{
  store_attachments, store_item, store_items, store_all, find_record, add_run, write_record,
  assign_existing,
}

-- The tables that a sync leaves alone.
pub record IsFrame (t u : Tables) : Type 0 where
  pub profiles_kept : u.sync_profiles ≡ t.sync_profiles
  pub events_kept : u.webhook_events ≡ t.webhook_events

pub IsFrame-trans : {t u v : Tables} → IsFrame t u → IsFrame u v → IsFrame t v
IsFrame-trans h k = record {
  profiles_kept = k.profiles_kept ∙ h.profiles_kept;
  events_kept = k.events_kept ∙ h.events_kept;
}

pub IsFrame-refl : (t : Tables) → IsFrame t t
IsFrame-refl t = record { profiles_kept = refl; events_kept = refl }

module _ (fixtures : Fixtures) (storage : Storage) (keys : Keys) (connection : DmsaConnection)
    (sync_profile_id : Option ℕ) (now : Instant) where
  store_attachments-IsFrame :
      (record_id run_id : ℕ) (entry : String × FixtureItem) (attachments : List FixtureAttachment)
      (t : Tables)
      → IsFrame t
          (store_attachments fixtures storage keys connection sync_profile_id now record_id run_id
            entry attachments t).1
  unfolding store_attachments
  store_attachments-IsFrame record_id run_id entry [] t = IsFrame-refl t
  store_attachments-IsFrame record_id run_id entry (attachment ∷ attachments) t =
      elim (Result-cases (
        storage.plan_attachment_storage (
          attachment_request connection.id (some record_id) (some run_id) sync_profile_id entry
            attachment))) [
              | inl (plan, planned) ↦
                  rw (planned, store_attachments)
                    (IsFrame-trans (record { profiles_kept = refl; events_kept = refl })
                      (store_attachments-IsFrame record_id run_id entry attachments _))
              | inr (e, failed) ↦ rw (failed, store_attachments) (IsFrame-refl t)
            ]

  clear-IsFrame :
      (existing : Option IntakeRecord) (t : Tables) → IsFrame t (clear_attachments existing t)
  clear-IsFrame none t = IsFrame-refl t
  clear-IsFrame (some r) t = record { profiles_kept = refl; events_kept = refl }

  assign-IsFrame :
      (entry : String × FixtureItem) (existing : Option IntakeRecord) (t : Tables)
      → IsFrame t
          (assign_existing fixtures storage keys connection sync_profile_id now entry existing t)
  assign-IsFrame entry none t = IsFrame-refl t
  assign-IsFrame entry (some r) t = record { profiles_kept = refl; events_kept = refl }

  store_item-IsFrame :
      (run_id : ℕ) (entry : String × FixtureItem) (t : Tables)
      → IsFrame t (store_item fixtures storage keys connection sync_profile_id now run_id entry t).1
  unfolding store_item
  store_item-IsFrame run_id entry t = elim (Result-cases (content_of fixtures run_id entry)) [
    | inr (e, failed) ↦
        rw (failed, store_item) (assign-IsFrame entry (find_record (entry_source entry) t) t)
    | inl (content, read) ↦
        let existing = find_record (entry_source entry) t in
        let written =
          write_record fixtures storage keys connection sync_profile_id now (entry_source entry)
            content t in
        rw (read, store_item)
          (IsFrame-trans
            (IsFrame-trans (record { profiles_kept = refl; events_kept = refl })
              (clear-IsFrame existing written))
            (store_attachments-IsFrame (kept_id (keys.record_key t) existing) run_id entry
              entry.1.attachments (clear_attachments existing written)))
  ]

  store_items-IsFrame :
      (run_id : ℕ) (entries : List (String × FixtureItem)) (t : Tables)
      → IsFrame t
          (store_items fixtures storage keys connection sync_profile_id now run_id entries t).1
  unfolding store_items
  store_items-IsFrame run_id [] t = IsFrame-refl t
  store_items-IsFrame run_id (entry ∷ entries) t =
      let one = store_item fixtures storage keys connection sync_profile_id now run_id entry t in
      let first = store_item-IsFrame run_id entry t in
      elim (Option-cases one.0) [
        | inr (e, failed) ↦ rw (failed, store_items) first
        | inl stored ↦
            rw (stored, store_items)
              (IsFrame-trans first (store_items-IsFrame run_id entries one.1))
      ]

  pub store_all-IsFrame :
      (entries : List (String × FixtureItem)) (t : Tables)
      → IsFrame t (store_all fixtures storage keys connection sync_profile_id now entries t).1
  unfolding store_all
  store_all-IsFrame entries t =
      let started =
        add_run fixtures storage keys connection sync_profile_id now (keys.run_key t) t in
      let items =
        IsFrame-trans (record { profiles_kept = refl; events_kept = refl })
          (store_items-IsFrame (keys.run_key t) entries started) in
      elim (Option-cases
        (store_items fixtures storage keys connection sync_profile_id now (keys.run_key t) entries
          started).0) [
            | inr (e, failed) ↦ rw (failed, store_all) items
            | inl stored ↦
                rw (stored, store_all)
                  (IsFrame-trans items (record { profiles_kept = refl; events_kept = refl }))
          ]
