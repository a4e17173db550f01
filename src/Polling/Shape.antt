-- ===== src/Polling/Shape.antt =====
-- The two ways in which a persisted run can go: it stops at a test and writes nothing, or it runs the
-- sync under the lock and books its result. What holds of both holds of every persisted run.
use procore_intake_bridge.Polling.Outcome.{run_sync_profile_once_lem, tables_after}
use procore_intake_bridge.Polling.Effects.{
  IsRunnable, recorded, run_missing, outcome, run-eq-run_found, sync_of_run, locked_session,
}
use procore_intake_bridge.Database.Writes.{
  find_profile, update_profile, find_profile_own, tables-modify_profile,
}
use procore_intake_bridge.Exceptions.{Result, returned, raised}
use procore_intake_bridge.Polling.Profiles.{
  record_sync_success, record_sync_failure, unlock_profile, has_active_lock,
}
use procore_intake_bridge.Models.Settings.{Settings}
use procore_intake_bridge.Polling.{IntakeSync, Result, SyncSummary}
use procore_intake_bridge.Polling.Run.{
  run_found, run_planned, SyncProfileRunResult, run_sync_profile_once, planned_watermark, is_live,
  or_else,
}
use procore_intake_bridge.Base.{
  ℕ, ◌≡◌, ◌⊎◌, Bool, Option, String, false, has_row, some, Option-cases, inl, Bool-cases, ap, ◌||◌,
  inr, arith, ◌∙◌, subst, has_row-update_row, key-find_row, refl, sym,
}
use procore_intake_bridge.Models.{SyncProfile, Instant, SyncMode}
use procore_intake_bridge.Database.{Database, Tables, committed}

-- Either tests fail and the run is over, or the profile is runnable.
stops_or_runs :
    (db : Database) (intake : IntakeSync db) (settings : Settings) (p : SyncProfile)
    (mode : Option SyncMode) (force : Bool) (now : Instant) (owner : Option String) (s : db.Session)
    → ((run_found db intake settings p mode false force now owner s).1 ≡ s)
      ⊎ IsRunnable settings p mode force now
unfolding run_found run_planned
stops_or_runs db intake settings p mode force now owner s = elim (Bool-cases (p.enabled || force)) [
  | inr disabled ↦ inl (ground arith)
  | inl allowed ↦
      elim (Bool-cases (has_active_lock p.locked_at now settings.sync_lock_timeout_minutes)) [
        | inl held ↦ inl (ground arith)
        | inr inactive ↦ elim (Bool-cases (is_live (or_else mode p.mode))) [
          | inl alive ↦ inl (ground arith)
          | inr mocked ↦ inr (record { allowed = allowed; unlocked = inactive; mocked = mocked })
        ]
      ]
]

module _ (db : Database) (intake : IntakeSync db) (settings : Settings) where
  open db use {Session, tables}

  -- A run that went through, of the profile `profile`.
  pub record WentThrough (i : ℕ) (now : Instant) (owner : Option String) (s : Session)
      (out : Result SyncProfileRunResult × Session) : Type 0 where
    pub profile : SyncProfile
    pub key : profile.id ≡ i
    pub found : find_profile profile.id (tables s) ≡ some profile
    pub returns :
        out.0
        ≡ returned (
            outcome profile.id
              (planned_watermark settings now profile)
              now
              (sync_of_run db intake settings profile now owner s).0)
    pub leaves :
        tables out.1
        ≡ tables_after profile.id now
            (sync_of_run db intake settings profile now owner s).0
            (tables s)
            (tables (sync_of_run db intake settings profile now owner s).1)
    pub commits : committed db out.1 ≡ tables out.1

  went_through :
      (p : SyncProfile) (mode : Option SyncMode) (force : Bool) (now : Instant)
      (owner : Option String) (s : Session)
      → find_profile p.id (tables s) ≡ some p
      → IsRunnable settings p mode force now
      → WentThrough p.id now owner s
          (run_sync_profile_once db intake settings p.id mode false force now owner s)
  went_through p mode force now owner s found runnable =
      let (res, _, left, stored) =
        run_sync_profile_once_lem db intake settings p mode force now owner s found runnable in
      record {
        profile = p;
        key = refl;
        found = found;
        returns = res;
        leaves = left;
        commits = stored;
      }

  pub run-shape :
      (i : ℕ) (mode : Option SyncMode) (force : Bool) (now : Instant) (owner : Option String)
      (s : Session)
      → ((run_sync_profile_once db intake settings i mode false force now owner s).1 ≡ s)
        ⊎ WentThrough i now owner s
            (run_sync_profile_once db intake settings i mode false force now owner s)
  run-shape i mode force now owner s = elim (Option-cases (find_profile i (tables s))) [
    | inl missing ↦ inl (rw (run_missing db intake settings i mode false force now owner s missing))
    | inr (p, found) ↦ elim (stops_or_runs db intake settings p mode force now owner s) [
      | inl stopped ↦
          inl (
            rw (run-eq-run_found db intake settings i mode false force now owner s p found) stopped)
      | inr runnable ↦ inr (
          subst
            (λ k.
              WentThrough k now owner s
                (run_sync_profile_once db intake settings k mode false force now owner s))
            (key-find_row _ i _ p found)
            (went_through p mode force now owner s (find_profile_own i (tables s) p found)
              runnable))
    ]
  ]

  tables_after-profiles :
      (i : ℕ) (now : Instant) (r : Result SyncSummary) (before synced : Tables)
      → (tables_after i now r before synced).sync_profiles
        ≡ (update_profile i (recorded now r) before).sync_profiles
  tables_after-profiles i now (returned summary) before synced = refl
  tables_after-profiles i now (raised e) before synced = refl

  recorded-id :
      (now : Instant) (r : Result SyncSummary) (p : SyncProfile) → (recorded now r p).id ≡ p.id
  unfolding record_sync_success record_sync_failure unlock_profile
  recorded-id now (returned summary) p = refl
  recorded-id now (raised e) p = refl

  -- A persisted run keeps every row of the table of profiles.
  pub run-has_row :
      (i j : ℕ) (mode : Option SyncMode) (force : Bool) (now : Instant) (owner : Option String)
      (s : Session)
      → has_row
          (λ (p : SyncProfile). p.id)
          j
          (tables
            (run_sync_profile_once db intake settings i mode false force now owner
              s).1).sync_profiles
        ≡ has_row (λ (p : SyncProfile). p.id) j (tables s).sync_profiles
  run-has_row i j mode force now owner s = elim (run-shape i mode force now owner s) [
    | inl stopped ↦
        ap (λ s'. has_row (λ (p : SyncProfile). p.id) j (tables s').sync_profiles) stopped
    | inr w ↦
        ap (λ (t : Tables). has_row (λ (p : SyncProfile). p.id) j t.sync_profiles) w.leaves
        ∙ ap (has_row (λ (p : SyncProfile). p.id) j) (tables_after-profiles _ now _ (tables s) _)
        ∙ has_row-update_row _ (recorded now _) (recorded-id now _) j _ (tables s).sync_profiles
  ]

  tables_after-events :
      (i : ℕ) (now : Instant) (r : Result SyncSummary) (before synced : Tables)
      → synced.webhook_events ≡ before.webhook_events
      → (tables_after i now r before synced).webhook_events ≡ before.webhook_events
  tables_after-events i now (returned summary) before synced h = h
  tables_after-events i now (raised e) before synced h = refl

  locked_session-events :
      (p : SyncProfile) (now : Instant) (owner : Option String) (s : Session)
      → (tables (locked_session db intake settings p now owner s)).webhook_events
        ≡ (tables s).webhook_events
  locked_session-events p now owner s = simp (db.tables-commit, tables-modify_profile)

  -- A persisted run leaves the webhook events alone.
  pub run-webhook_events :
      (i : ℕ) (mode : Option SyncMode) (force : Bool) (now : Instant) (owner : Option String)
      (s : Session)
      → (tables
          (run_sync_profile_once db intake settings i mode false force now owner
            s).1).webhook_events
        ≡ (tables s).webhook_events
  run-webhook_events i mode force now owner s = elim (run-shape i mode force now owner s) [
    | inl stopped ↦ ap (λ s'. (tables s').webhook_events) stopped
    | inr w ↦
        ap (λ (t : Tables). t.webhook_events) w.leaves
        ∙ tables_after-events _ now _ (tables s) _
            (intake.sync-webhook_events _ _ ∙ locked_session-events w.profile now owner s)
  ]

  -- After a persisted run all is committed, if it was before.
  pub run-committed :
      (i : ℕ) (mode : Option SyncMode) (force : Bool) (now : Instant) (owner : Option String)
      (s : Session)
      → committed db s ≡ tables s
      → let s' = (run_sync_profile_once db intake settings i mode false force now owner s).1 in
        committed db s' ≡ tables s'
  run-committed i mode force now owner s h = elim (run-shape i mode force now owner s) [
    | inl stopped ↦ subst (λ s'. committed db s' ≡ tables s') (sym stopped) h
    | inr w ↦ w.commits
  ]
