-- ===== src/Polling/Outcome.antt =====
-- The runs of app/services/polling_worker.py: what a run returns and commits, what a run that raises
-- or is dry leaves alone, and when a profile is due again.
use mathlib.Core.Option.{some-injective}
use procore_intake_bridge.Base.{
  ℕ, ◌⊎◌, ◌+◌, ◌<◌, ◌≡◌, ◌≢◌, refl, sym, ap, ◌∙◌, String, Bool, true, false, Option, some, arith,
  Option-cases, inl, inr,
}
use procore_intake_bridge.Models.{Instant, minutes, SyncMode, SyncProfile}
use procore_intake_bridge.Models.Settings.{Settings}
use procore_intake_bridge.Exceptions.{Exception, Result, returned, raised, returned-injective}
use procore_intake_bridge.Database.{Tables, Database, committed}
use procore_intake_bridge.Database.Writes.{
  find_profile, update_profile, find_profile-update, find_profile_own,
}
use procore_intake_bridge.Polling.{SyncSummary, IntakeSync}
use procore_intake_bridge.Polling.Profiles.{
  has_active_lock, is_due, calculate_next_run_at, record_sync_success, record_sync_failure,
  unlock_profile, release_sync_lock,
}
use procore_intake_bridge.Polling.Run.{
  planned_watermark, finish_run, finish_dry_run, sync_request, run_planned, run_persisted,
  run_found, run_sync_profile_once, success_result, failure_result, SyncProfileRunResult, RunStatus,
}
use procore_intake_bridge.Polling.Effects.{
  recorded, outcome, run_persisted-eq-finish_run, IsRunnable, run_missing, run-eq-run_found,
  locked_session, sync_of_run, run-eq-finish_run, tables-finish_run_raised,
  tables-finish_run_returned,
}

-- The tables after a run, from those before it and those that the sync left.
abbrev pub tables_after : ℕ → Instant → Result SyncSummary → Tables → Tables → Tables
tables_after i now (returned summary) before synced = record synced {
  sync_profiles = (update_profile i (recorded now (returned summary)) before).sync_profiles;
}
tables_after i now (raised e) before synced = update_profile i (recorded now (raised e)) before

module _ (db : Database) (intake : IntakeSync db) (settings : Settings) where
  open db use {Session, tables, rollback}

  finish_run-tables :
      (p : SyncProfile) (planned now : Instant) (owner : Option String) (s : Session)
      (r : Result SyncSummary) (s2 : Session)
      → rollback s2 ≡ rollback (locked_session db intake settings p now owner s)
      → (tables s2).sync_profiles
        ≡ (tables (locked_session db intake settings p now owner s)).sync_profiles
      → tables (finish_run db intake settings p.id planned now r s2).1
        ≡ tables_after p.id now r (tables s) (tables s2)
  finish_run-tables p planned now owner s (returned summary) s2 h k =
      tables-finish_run_returned db intake settings p planned now owner s summary s2 k
  finish_run-tables p planned now owner s (raised e) s2 h k =
      tables-finish_run_raised db intake settings p planned now owner s e s2 h

  finish_run-result :
      (i : ℕ) (planned now : Instant) (r : Result SyncSummary) (s : Session)
      → (finish_run db intake settings i planned now r s).0 ≡ returned (outcome i planned now r)
  unfolding finish_run
  finish_run-result i planned now (returned summary) s = refl
  finish_run-result i planned now (raised e) s = refl

  finish_run-committed :
      (i : ℕ) (planned now : Instant) (r : Result SyncSummary) (s : Session)
      → committed db (finish_run db intake settings i planned now r s).1
        ≡ tables (finish_run db intake settings i planned now r s).1
  unfolding finish_run release_sync_lock
  finish_run-committed i planned now (returned summary) s =
      db.rollback-commit _ ∙ sym (db.tables-commit _)
  finish_run-committed i planned now (raised e) s = db.rollback-commit _ ∙ sym (db.tables-commit _)

  find_profile-tables_after :
      (i : ℕ) (now : Instant) (r : Result SyncSummary) (before synced : Tables) (p : SyncProfile)
      → find_profile i before ≡ some p
      → find_profile i (tables_after i now r before synced) ≡ some (recorded now r p)
  unfolding record_sync_success record_sync_failure unlock_profile
  find_profile-tables_after i now (returned summary) before synced p h =
      find_profile-update (recorded now (returned summary)) (λ q. refl) i before p h
  find_profile-tables_after i now (raised e) before synced p h =
      find_profile-update (recorded now (raised e)) (λ q. refl) i before p h

  -- A run of a runnable profile returns, whether its sync returns or raises. Its result is that of
  -- the sync; the row of the profile has the bookkeeping of that result and no lock; what the sync
  -- wrote elsewhere is kept if it returned, and all of it is gone if it raised; all is committed.
  pub run_sync_profile_once_lem :
      (p : SyncProfile) (mode : Option SyncMode) (force : Bool) (now : Instant)
      (owner : Option String) (s : Session)
      → find_profile p.id (tables s) ≡ some p
      → IsRunnable settings p mode force now
      → let (r, synced) = sync_of_run db intake settings p now owner s in
        let (result, s') =
          run_sync_profile_once db intake settings p.id mode false force now owner s in
        (result ≡ returned (outcome p.id (planned_watermark settings now p) now r))
        × (find_profile p.id (tables s') ≡ some (recorded now r p))
        × (tables s' ≡ tables_after p.id now r (tables s) (tables synced))
        × (committed db s' ≡ tables s')
  run_sync_profile_once_lem p mode force now owner s found runnable =
      let (r, synced) = sync_of_run db intake settings p now owner s in
      let planned = planned_watermark settings now p in
      let after =
        finish_run-tables p planned now owner s r synced (intake.sync-rollback _ _)
          (intake.sync-sync_profiles _ _) in
      rw (run-eq-finish_run db intake settings p mode force now owner s found runnable) (
        finish_run-result p.id planned now r synced,
        ap (find_profile p.id) after
            ∙ find_profile-tables_after p.id now r (tables s) (tables synced) p found,
        after,
        finish_run-committed p.id planned now r synced,
      )

  finish_run-ne-raised :
      (i : ℕ) (planned now : Instant) (r : Result SyncSummary) (s : Session) (e : Exception)
      → (finish_run db intake settings i planned now r s).0 ≢ raised e
  unfolding finish_run
  finish_run-ne-raised i planned now (returned summary) s e h = cc
  finish_run-ne-raised i planned now (raised e') s e h = cc

  finish_dry_run_lem :
      (i : ℕ) (planned : Instant) (r : Result SyncSummary) (s : Session)
      → (finish_dry_run db intake settings i planned r s).1 ≡ s
  unfolding finish_dry_run
  finish_dry_run_lem i planned (returned summary) s = refl
  finish_dry_run_lem i planned (raised e) s = refl

  run_planned_dry :
      (p : SyncProfile) (now : Instant) (owner : Option String) (s : Session)
      → (run_planned db intake settings p true now owner s).1 ≡ s
  unfolding run_planned sync_request
  run_planned_dry p now owner s = finish_dry_run_lem _ _ _ _ ∙ intake.sync-dry_run _ s refl

  run_found_dry :
      (p : SyncProfile) (mode : Option SyncMode) (force : Bool) (now : Instant)
      (owner : Option String) (s : Session)
      → (run_found db intake settings p mode true force now owner s).1 ≡ s
  unfolding run_found
  run_found_dry p mode force now owner s = ground (arith, run_planned_dry p now owner s)

  pub run_persisted-ne-raised :
      (p : SyncProfile) (now : Instant) (owner : Option String) (s : Session) (e : Exception)
      → find_profile p.id (tables s) ≡ some p
      → has_active_lock p.locked_at now settings.sync_lock_timeout_minutes ≡ false
      → (run_persisted db intake settings p now owner s).0 ≢ raised e
  run_persisted-ne-raised p now owner s e found inactive =
      rw (run_persisted-eq-finish_run db intake settings p now owner s found inactive)
        (finish_run-ne-raised p.id _ now _ _ e)

  run_found_raises :
      (p : SyncProfile) (mode : Option SyncMode) (force : Bool) (now : Instant)
      (owner : Option String) (s : Session) (e : Exception)
      → find_profile p.id (tables s) ≡ some p
      → (run_found db intake settings p mode false force now owner s).0 ≡ raised e
      → (run_found db intake settings p mode false force now owner s).1 ≡ s
  unfolding run_found run_planned
  run_found_raises p mode force now owner s e found h =
      ground (arith, run_persisted-ne-raised p now owner s e found)

  -- A persisted run that raises has written nothing: the session is the one that it was given.
  pub run_raises_unchanged :
      (i : ℕ) (mode : Option SyncMode) (force : Bool) (now : Instant) (owner : Option String)
      (s : Session) (e : Exception)
      → (run_sync_profile_once db intake settings i mode false force now owner s).0 ≡ raised e
      → (run_sync_profile_once db intake settings i mode false force now owner s).1 ≡ s
  run_raises_unchanged i mode force now owner s e h =
      elim (Option-cases (find_profile i (tables s))) [
        | inl missing ↦ rw (run_missing db intake settings i mode false force now owner s missing)
        | inr (p, found) ↦
            let own = find_profile_own i (tables s) p found in
            let eq = run-eq-run_found db intake settings i mode false force now owner s p found in
            rw eq (run_found_raises p mode force now owner s e own (rw eq at h))
      ]

  -- A dry run, whatever its result, leaves the session as it was.
  pub dry_run_unchanged :
      (i : ℕ) (mode : Option SyncMode) (force : Bool) (now : Instant) (owner : Option String)
      (s : Session)
      → (run_sync_profile_once db intake settings i mode true force now owner s).1 ≡ s
  dry_run_unchanged i mode force now owner s = elim (Option-cases (find_profile i (tables s))) [
    | inl missing ↦ rw (run_missing db intake settings i mode true force now owner s missing)
    | inr (p, found) ↦
        rw (run-eq-run_found db intake settings i mode true force now owner s p found)
          (run_found_dry p mode force now owner s)
  ]

  -- After a run of a runnable profile the profile is not due before a polling interval has passed,
  -- whether the run succeeded or failed.
  pub run-not_due :
      (p q : SyncProfile) (mode : Option SyncMode) (force : Bool) (now at : Instant)
      (owner : Option String) (s : Session)
      → find_profile p.id (tables s) ≡ some p
      → IsRunnable settings p mode force now
      → find_profile p.id
          (tables (run_sync_profile_once db intake settings p.id mode false force now owner s).1)
        ≡ some q
      → at < now + minutes p.polling_interval_minutes
      → is_due at q ≡ false
  unfolding is_due record_sync_success record_sync_failure unlock_profile calculate_next_run_at
  run-not_due p q mode force now at owner s found runnable after early =
      let (r, synced) = sync_of_run db intake settings p now owner s in
      let row = (run_sync_profile_once_lem p mode force now owner s found runnable).1 in
      not_due r (some-injective _ _ (sym row ∙ after))
    where
      not_due : (r : Result SyncSummary) → recorded now r p ≡ q → is_due at q ≡ false
      not_due (returned summary) e = rw (← e) (ground arith)
      not_due (raised x) e = rw (← e) (ground arith)

  -- The watermark of a profile after a run of it while it is runnable: the start of the run if the
  -- result is `succeeded`, and what it was before if it is `failed`; no other result is returned. The
  -- count of consecutive failures is 0 in the first case, and one more than before in the second.
  pub run-watermark :
      (p q : SyncProfile) (mode : Option SyncMode) (force : Bool) (now : Instant)
      (owner : Option String) (s : Session) (result : SyncProfileRunResult)
      → find_profile p.id (tables s) ≡ some p
      → IsRunnable settings p mode force now
      → (run_sync_profile_once db intake settings p.id mode false force now owner s).0
        ≡ returned result
      → find_profile p.id
          (tables (run_sync_profile_once db intake settings p.id mode false force now owner s).1)
        ≡ some q
      → ((result.status ≡ RunStatus.succeeded)
          × (q.last_watermark_at ≡ some now)
          × (q.consecutive_failure_count ≡ 0))
        ⊎ ((result.status ≡ RunStatus.failed)
            × (q.last_watermark_at ≡ p.last_watermark_at)
            × (q.consecutive_failure_count ≡ p.consecutive_failure_count + 1))
  unfolding record_sync_success record_sync_failure unlock_profile success_result failure_result
  run-watermark p q mode force now owner s result found runnable res after =
      let (r, synced) = sync_of_run db intake settings p now owner s in
      let lem = run_sync_profile_once_lem p mode force now owner s found runnable in
      advance r (returned-injective (sym lem.0 ∙ res)) (some-injective _ _ (sym lem.1 ∙ after))
    where
      advance :
          (r : Result SyncSummary)
          → outcome p.id (planned_watermark settings now p) now r ≡ result
          → recorded now r p ≡ q
          → ((result.status ≡ RunStatus.succeeded)
              × (q.last_watermark_at ≡ some now)
              × (q.consecutive_failure_count ≡ 0))
            ⊎ ((result.status ≡ RunStatus.failed)
                × (q.last_watermark_at ≡ p.last_watermark_at)
                × (q.consecutive_failure_count ≡ p.consecutive_failure_count + 1))
      advance (returned summary) e f = inl (
        ap (λ x. x.status) (sym e),
        ap (λ x. x.last_watermark_at) (sym f),
        ap (λ x. x.consecutive_failure_count) (sym f),
      )
      advance (raised x) e f = inr (
        ap (λ x. x.status) (sym e),
        ap (λ x. x.last_watermark_at) (sym f),
        ap (λ x. x.consecutive_failure_count) (sym f),
      )
