-- ===== src/Sync/Permitted.antt =====
-- Which projects app/services/intake_sync.py reads for a connection.
use procore_intake_bridge.Base.{
  ◌≡◌, sym, subst, String, Bool, true, false, ◌&&◌, Option, none, some, List, [], ◌∷◌, ◌++◌, map,
  All, Bool-cases, inl, inr, str_eq, eq_iff, if◌then◌else◌,
}
use procore_intake_bridge.Exceptions.{
  returned, raised-ne-returned, returned-injective, Result-cases,
}
use procore_intake_bridge.Models.{Instant, DmsaConnection}
use procore_intake_bridge.Sync.Source.{
  FixtureItem, Fixtures, is_among, of_project, updated_later, keep_later, filtered,
  list_for_project, collect_tool, collect_project, collect_projects, collect_fixture_records,
}

-- The item's project is on the connection's allowlist.
abbrev pub IsPermitted : DmsaConnection → FixtureItem → Type 0
IsPermitted connection item = is_among item.project_id connection.permitted_project_ids ≡ true

All-append : {A : Type 0} (P : A → Type 0) (xs ys : List A) → All P xs → All P ys → All P (xs ++ ys)
All-append P [] ys h k = k
All-append P (x ∷ xs) ys h k = (h.0, All-append P xs ys h.1 k)

All-tagged :
    (P : FixtureItem → Type 0) (source_type : String) (items : List FixtureItem)
    → All P items
    → All (λ (entry : String × FixtureItem). P entry.1) (map (λ item. (source_type, item)) items)
All-tagged P source_type [] h = tt
All-tagged P source_type (item ∷ items) h = (h.0, All-tagged P source_type items h.1)

All-if :
    (P : FixtureItem → Type 0) (flag : Bool) (item : FixtureItem) (items : List FixtureItem)
    → P item
    → All P items
    → All P (if flag then item ∷ items else items)
All-if P true item items h k = (h, k)
All-if P false item items h k = k

module _ (fixtures : Fixtures) (connection : DmsaConnection) where
  of_project-IsPermitted :
      (project_id : String) (items : List FixtureItem)
      → is_among project_id connection.permitted_project_ids ≡ true
      → All (IsPermitted connection) (of_project project_id items)
  unfolding of_project
  of_project-IsPermitted project_id [] h = tt
  of_project-IsPermitted project_id (item ∷ items) h =
      elim (Bool-cases (str_eq item.project_id project_id)) [
        | inl own ↦ rw own (
          subst (λ p. is_among p connection.permitted_project_ids ≡ true)
              (sym ((eq_iff item.project_id project_id).0 own)) h,
          of_project-IsPermitted project_id items h,
        )
        | inr other_project ↦ rw other_project (of_project-IsPermitted project_id items h)
      ]

  All-keep_later :
      (P : FixtureItem → Type 0) (after : Instant) (items kept : List FixtureItem)
      → All P items
      → keep_later fixtures after items ≡ returned kept
      → All P kept
  unfolding keep_later
  All-keep_later P after [] kept h k = subst (All P) (returned-injective k) tt
  All-keep_later P after (item ∷ items) kept h k =
      elim (Result-cases (updated_later fixtures after item.updated_at)) [
        | inr (e, failed) ↦ absurd (raised-ne-returned (rw (failed, keep_later) at k))
        | inl (later, read) ↦ elim (Result-cases (keep_later fixtures after items)) [
          | inr (e, failed) ↦ absurd (raised-ne-returned (rw (read, failed, keep_later) at k))
          | inl (rest, same) ↦
              subst (All P) (returned-injective (rw (read, same, keep_later) at k))
                (All-if P later item rest h.0 (All-keep_later P after items rest h.1 same))
        ]
      ]

  filtered-IsPermitted :
      (project_id : String) (updated_after : Option Instant) (items kept : List FixtureItem)
      → is_among project_id connection.permitted_project_ids ≡ true
      → filtered fixtures project_id updated_after items ≡ returned kept
      → All (IsPermitted connection) kept
  unfolding filtered
  filtered-IsPermitted project_id none items kept h k =
      subst (All (IsPermitted connection)) (returned-injective k)
        (of_project-IsPermitted project_id items h)
  filtered-IsPermitted project_id (some after) items kept h k =
      All-keep_later (IsPermitted connection) after (of_project project_id items) kept
        (of_project-IsPermitted project_id items h) k

  list-IsPermitted :
      (filename project_id : String) (updated_after : Option Instant) (items : List FixtureItem)
      → list_for_project fixtures filename connection project_id updated_after ≡ returned items
      → All (IsPermitted connection) items
  unfolding list_for_project
  list-IsPermitted filename project_id updated_after items h =
      elim (Bool-cases fixtures.is_fixture_mode) [
        | inr live ↦ absurd (raised-ne-returned (simp live at h))
        | inl fixture ↦ elim (Bool-cases (is_among project_id connection.permitted_project_ids)) [
          | inr outside ↦ absurd (raised-ne-returned (simp (fixture, outside) at h))
          | inl permitted ↦ elim (Result-cases (fixtures.load_fixture filename)) [
            | inr (e, failed) ↦ absurd (raised-ne-returned (simp (fixture, permitted, failed) at h))
            | inl (loaded, read) ↦
                filtered-IsPermitted project_id updated_after loaded items permitted
                  (simp (fixture, permitted, read) at h)
          ]
        ]
      ]

  abbrev EntryIsPermitted : String × FixtureItem → Type 0
  EntryIsPermitted entry = IsPermitted connection entry.1

  tool-IsPermitted :
      (wanted : Bool) (tool source_type filename project_id : String)
      (updated_after : Option Instant) (entries : List (String × FixtureItem))
      → collect_tool fixtures wanted tool source_type filename connection project_id updated_after
        ≡ returned entries
      → All EntryIsPermitted entries
  unfolding collect_tool
  tool-IsPermitted wanted tool source_type filename project_id updated_after entries h =
      elim (Bool-cases (wanted && is_among tool connection.enabled_tools)) [
        | inr off ↦ subst (All EntryIsPermitted) (returned-injective (rw off at h)) tt
        | inl on ↦
            elim (Result-cases
              (list_for_project fixtures filename connection project_id updated_after)) [
                | inr (e, failed) ↦ absurd (raised-ne-returned (rw (on, failed, collect_tool) at h))
                | inl (items, read) ↦
                    subst (All EntryIsPermitted)
                      (returned-injective (rw (on, read, collect_tool) at h))
                      (All-tagged (IsPermitted connection) source_type items
                        (list-IsPermitted filename project_id updated_after items read))
              ]
      ]

  project-IsPermitted :
      (project_id : String) (sync_rfis sync_submittals : Bool) (updated_after : Option Instant)
      (entries : List (String × FixtureItem))
      → collect_project fixtures connection project_id sync_rfis sync_submittals updated_after
        ≡ returned entries
      → All EntryIsPermitted entries
  unfolding collect_project
  project-IsPermitted project_id sync_rfis sync_submittals updated_after entries h =
      elim (Result-cases (
        collect_tool fixtures sync_rfis "rfis" "rfi" "fake_rfis.json" connection project_id
          updated_after)) [
            | inr (e, failed) ↦ absurd (raised-ne-returned (rw (failed, collect_project) at h))
            | inl (rfis, read) ↦
                elim (Result-cases (
                  collect_tool fixtures sync_submittals "submittals" "submittal"
                    "fake_submittals.json" connection project_id updated_after)) [
                      | inr (e, failed) ↦
                          absurd (raised-ne-returned (rw (read, failed, collect_project) at h))
                      | inl (submittals, also) ↦
                          subst (All EntryIsPermitted)
                            (returned-injective (rw (read, also, collect_project) at h))
                            (All-append EntryIsPermitted rfis submittals
                              (tool-IsPermitted sync_rfis _ _ _ project_id updated_after rfis read)
                              (tool-IsPermitted sync_submittals _ _ _ project_id updated_after
                                submittals also))
                    ]
          ]

  projects-IsPermitted :
      (project_ids : List String) (sync_rfis sync_submittals : Bool)
      (updated_after : Option Instant) (entries : List (String × FixtureItem))
      → collect_projects fixtures connection project_ids sync_rfis sync_submittals updated_after
        ≡ returned entries
      → All EntryIsPermitted entries
  unfolding collect_projects
  projects-IsPermitted [] sync_rfis sync_submittals updated_after entries h =
      subst (All EntryIsPermitted) (returned-injective h) tt
  projects-IsPermitted (project_id ∷ project_ids) sync_rfis sync_submittals updated_after entries
        h =
      elim (Result-cases
        (collect_project fixtures connection project_id sync_rfis sync_submittals updated_after)) [
          | inr (e, failed) ↦ absurd (raised-ne-returned (rw (failed, collect_projects) at h))
          | inl (items, read) ↦
              elim (Result-cases (
                collect_projects fixtures connection project_ids sync_rfis sync_submittals
                  updated_after)) [
                    | inr (e, failed) ↦
                        absurd (raised-ne-returned (rw (read, failed, collect_projects) at h))
                    | inl (others, also) ↦
                        subst (All EntryIsPermitted)
                          (returned-injective (rw (read, also, collect_projects) at h))
                          (All-append EntryIsPermitted items others
                            (project-IsPermitted project_id sync_rfis sync_submittals updated_after
                              items read)
                            (projects-IsPermitted project_ids sync_rfis sync_submittals
                              updated_after others also))
                  ]
        ]

  -- Whatever project a sync is asked for, also for none in particular, the items that it collects are of
  -- projects that the connection permits.
  pub collect-IsPermitted :
      (procore_project_id : Option String) (sync_rfis sync_submittals : Bool)
      (updated_after : Option Instant) (entries : List (String × FixtureItem))
      → collect_fixture_records fixtures connection procore_project_id sync_rfis sync_submittals
          updated_after
        ≡ returned entries
      → All (λ (entry : String × FixtureItem). IsPermitted connection entry.1) entries
  unfolding collect_fixture_records
  collect-IsPermitted none sync_rfis sync_submittals updated_after entries h =
      projects-IsPermitted connection.permitted_project_ids sync_rfis sync_submittals updated_after
        entries h
  collect-IsPermitted (some project_id) sync_rfis sync_submittals updated_after entries h =
      projects-IsPermitted (project_id ∷ []) sync_rfis sync_submittals updated_after entries h
