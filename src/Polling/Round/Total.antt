-- ===== src/Polling/Round/Total.antt =====
-- A persisted round of the polling worker returns, with one result for each due profile.
use procore_intake_bridge.Polling.Effects.{run-eq-run_found}
use procore_intake_bridge.Polling.Shape.{run-has_row}
use procore_intake_bridge.Polling.Profiles.{find_due_sync_profiles, is_due}
use procore_intake_bridge.Base.{
  ◌+◌, ◌≡◌, true, false, Option, none, some, List, [], ◌∷◌, length, count, All, arith, String,
  has_row, All-of_select, All-has_row, ap, ◌∙◌, refl, has_row-find_row, All-map, suc,
}
use procore_intake_bridge.Models.{Instant, SyncMode, SyncProfile}
use procore_intake_bridge.Models.Settings.{Settings}
use procore_intake_bridge.Exceptions.{Exception, Result, returned, raised}
use procore_intake_bridge.Database.{Database}
use procore_intake_bridge.Database.Writes.{find_profile, find_profile_own}
use procore_intake_bridge.Polling.{IntakeSync}
use procore_intake_bridge.Polling.Run.{SyncProfileRunResult, run_found, run_planned}
use procore_intake_bridge.Polling.Outcome.{run_persisted-ne-raised}
use procore_intake_bridge.Polling.Round.{
  PollingRunSummary, is_skip_error, skip_errors, is_succeeded, is_failed, is_skipped,
  polling_summary, run_due_profile, run_profiles, run_due_profiles_once, find_due_sync_profiles,
  summarised, skipped_result,
}

-- A result of a persisted run counts as succeeded, failed or skipped.
counts_lem :
    (results : List SyncProfileRunResult)
    → count is_succeeded results + count is_failed results + count is_skipped results
      ≡ length results
unfolding is_succeeded is_failed is_skipped count
counts_lem [] = omega arith
counts_lem (r ∷ results) = ground (arith, counts_lem results)

module _ (db : Database) (intake : IntakeSync db) (settings : Settings) where
  open db use {Session, tables}

  -- A profile that is found raises nothing but what the loop catches.
  run_found-raises-skip :
      (p : SyncProfile) (mode : Option SyncMode) (now : Instant) (owner : Option String)
      (s : Session) (e : Exception)
      → find_profile p.id (tables s) ≡ some p
      → (run_found db intake settings p mode false false now owner s).0 ≡ raised e
      → is_skip_error e ≡ true
  unfolding run_found run_planned is_skip_error
  run_found-raises-skip p mode now owner s e found h =
      ground (arith, run_persisted-ne-raised db intake settings p now owner s e found)

  abbrev HasRow : SyncProfile → Session → Type 0
  HasRow p s = has_row (λ (q : SyncProfile). q.id) p.id (tables s).sync_profiles ≡ true

  -- The run of the row `q` that stands for a listed profile `p`.
  found-returned :
      (p q : SyncProfile) (now : Instant) (s : Session)
      → find_profile q.id (tables s) ≡ some q
      → (result : SyncProfileRunResult) × (skip_errors settings false now p
            (run_found db intake settings q none false false now none s).0
          ≡ returned result)
  unfolding skip_errors
  found-returned p q now s found =
      booked (run_found db intake settings q none false false now none s).0 refl
    where
      booked :
          (r : Result SyncProfileRunResult)
          → (run_found db intake settings q none false false now none s).0 ≡ r
          → (result : SyncProfileRunResult) × (skip_errors settings false now p r ≡ returned result)
      booked (returned result) e = (result, refl)
      booked (raised x) e = (
        skipped_result settings false now p x,
        rw (run_found-raises-skip q none now none s x found e),
      )

  run_due_profile-returned :
      (p : SyncProfile) (now : Instant) (s : Session)
      → HasRow p s
      → (result : SyncProfileRunResult) × ((run_due_profile db intake settings false now p s).0
          ≡ returned result)
  unfolding run_due_profile
  run_due_profile-returned p now s h =
      let (q, found) = has_row-find_row _ p.id (tables s).sync_profiles h in
      rw (run-eq-run_found db intake settings p.id none false false now none s q found)
        (found-returned p q now s (find_profile_own p.id (tables s) q found))

  run_due_profile-HasRow :
      (p q : SyncProfile) (now : Instant) (s : Session)
      → HasRow q s
      → HasRow q (run_due_profile db intake settings false now p s).1
  unfolding run_due_profile
  run_due_profile-HasRow p q now s h =
      run-has_row db intake settings p.id q.id none false now none s ∙ h

  run_profiles-cons :
      (now : Instant) (p : SyncProfile) (ps : List SyncProfile) (s : Session)
      (result : SyncProfileRunResult) (results : List SyncProfileRunResult)
      → (run_due_profile db intake settings false now p s).0 ≡ returned result
      → (run_profiles db intake settings false now ps
          (run_due_profile db intake settings false now p s).1).0
        ≡ returned results
      → (run_profiles db intake settings false now (p ∷ ps) s).0 ≡ returned (result ∷ results)
  unfolding run_profiles
  run_profiles-cons now p ps s result results e f = ground (arith, e, f)

  run_profiles-returned :
      (now : Instant) (ps : List SyncProfile) (s : Session)
      → All (λ p. HasRow p s) ps
      → (results : List SyncProfileRunResult) × ((run_profiles db intake settings false now ps s).0
          ≡ returned results)
        × (length results ≡ length ps)
  unfolding run_profiles
  run_profiles-returned now [] s h = ([], refl, refl)
  run_profiles-returned now (p ∷ ps) s (own, rest) =
      let (result, e) = run_due_profile-returned p now s own in
      let s1 = (run_due_profile db intake settings false now p s).1 in
      let (results, f, size) =
        run_profiles-returned now ps s1
          (All-map _ _ (λ q. run_due_profile-HasRow p q now s) ps rest) in
      (result ∷ results, run_profiles-cons now p ps s result results e f, ap suc size)

  -- A persisted round returns, whatever the syncs do: every due profile has one result, and the
  -- succeeded, failed and skipped ones are all of them.
  pub run_due_profiles_once_total :
      (now : Instant) (s : Session)
      → (summary : PollingRunSummary) × ((run_due_profiles_once db intake settings false now s).0
          ≡ returned summary)
        × (summary.due_profiles_count ≡ length (find_due_sync_profiles now (tables s)))
        × (summary.attempted_count ≡ summary.due_profiles_count)
        × (summary.succeeded_count + summary.failed_count + summary.skipped_count
            ≡ summary.due_profiles_count)
  unfolding run_due_profiles_once find_due_sync_profiles polling_summary
  run_due_profiles_once_total now s =
      let due = find_due_sync_profiles now (tables s) in
      let present =
        All-of_select (λ p. HasRow p s) (is_due now) (tables s).sync_profiles
          (All-has_row _ (tables s).sync_profiles) in
      let (results, returns, size) = run_profiles-returned now due s present in
      (
        polling_summary (length due) false results,
        ap (summarised db intake settings (length due) false) returns,
        refl,
        size,
        counts_lem results ∙ size,
      )
