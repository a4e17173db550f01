-- ===== src/Polling/Locks.antt =====
-- The lock of a profile (`acquire_sync_lock` and `release_sync_lock` of app/services/polling_worker.py)
-- between workers that share the database.
use procore_intake_bridge.Base.{
  ℕ, ◌+◌, ◌≡◌, ◌∙◌, sym, ap, refl, String, Bool, true, false, none, some, arith, leb, ◌≤◌,
  Option-cases, inl, inr,
}
use procore_intake_bridge.Models.{Instant, minutes, SyncProfile}
use procore_intake_bridge.Models.Settings.{Settings}
use procore_intake_bridge.Database.{Database}
use procore_intake_bridge.Database.Writes.{
  find_profile, tables-modify_profile, find_profile-update, modify_profile,
}
use procore_intake_bridge.Polling.Profiles.{
  lock_is_free, lock_profile, unlock_profile, acquire_sync_lock, release_sync_lock,
}

module _ (db : Database) (settings : Settings) where
  open db use {Session, tables, commit}

  acquire-found :
      (i : ℕ) (owner : String) (now : Instant) (s : Session) (p : SyncProfile)
      → find_profile i (tables s) ≡ some p
      → ((acquire_sync_lock db settings i owner now s).0
          ≡ lock_is_free p.locked_at now settings.sync_lock_timeout_minutes)
  unfolding acquire_sync_lock
  acquire-found i owner now s p found = ground (arith, found)

  acquire_missing :
      (i : ℕ) (owner : String) (now : Instant) (s : Session)
      → find_profile i (tables s) ≡ none
      → acquire_sync_lock db settings i owner now s ≡ (false, commit s)
  unfolding acquire_sync_lock
  acquire_missing i owner now s missing = rw (missing, acquire_sync_lock)

  pub acquire_free :
      (i : ℕ) (owner : String) (now : Instant) (s : Session) (p : SyncProfile)
      → find_profile i (tables s) ≡ some p
      → lock_is_free p.locked_at now settings.sync_lock_timeout_minutes ≡ true
      → acquire_sync_lock db settings i owner now s
        ≡ (true, commit (modify_profile db i (lock_profile now owner) s))
  unfolding acquire_sync_lock
  acquire_free i owner now s p found free = ground (arith, found, free)

  locked_row :
      (i : ℕ) (owner : String) (now : Instant) (s : Session) (p : SyncProfile)
      → find_profile i (tables s) ≡ some p
      → lock_is_free p.locked_at now settings.sync_lock_timeout_minutes ≡ true
      → find_profile i (tables (acquire_sync_lock db settings i owner now s).1)
        ≡ some (lock_profile now owner p)
  unfolding lock_profile
  locked_row i owner now s p found free = rw (acquire_free i owner now s p found free) (
      simp (db.tables-commit, tables-modify_profile)
        (find_profile-update (lock_profile now owner) (λ q. refl) i (tables s) p found))

  -- Where a lock was taken there is a row, and it holds the new lock.
  acquired_row :
      (i : ℕ) (owner : String) (now : Instant) (s : Session)
      → (acquire_sync_lock db settings i owner now s).0 ≡ true
      → (p : SyncProfile) × (find_profile i (tables s) ≡ some p)
        × (find_profile i (tables (acquire_sync_lock db settings i owner now s).1)
            ≡ some (lock_profile now owner p))
  acquired_row i owner now s h = elim (Option-cases (find_profile i (tables s))) [
    | inl missing ↦ cc (ap (λ (x : Bool × Session). x.0) (acquire_missing i owner now s missing))
    | inr (p, found) ↦
        (p, found, locked_row i owner now s p found (sym (acquire-found i owner now s p found) ∙ h))
  ]

  released_row :
      (i : ℕ) (s : Session) (p : SyncProfile)
      → find_profile i (tables s) ≡ some p
      → find_profile i (tables (release_sync_lock db i s)) ≡ some (unlock_profile p)
  unfolding release_sync_lock unlock_profile
  released_row i s p found =
      simp (db.tables-commit, tables-modify_profile)
        (find_profile-update unlock_profile (λ q. refl) i (tables s) p found)

  -- While one worker holds the lock of a profile, another gets it exactly when the timeout has passed.
  pub acquire-acquire :
      (i : ℕ) (first second : String) (now later : Instant) (s : Session)
      → (acquire_sync_lock db settings i first now s).0 ≡ true
      → (acquire_sync_lock db settings i second later
          (acquire_sync_lock db settings i first now s).1).0
        ≡ leb (now + minutes settings.sync_lock_timeout_minutes) later
  unfolding lock_is_free lock_profile
  acquire-acquire i first second now later s h =
      acquire-found i second later _ _ (acquired_row i first now s h).2

  -- Where a second worker has taken over the lock of a first one, which was stale, the release by the
  -- first frees the second one's lock: a third worker gets it at any time, however fresh it is.
  pub release-frees_takeover :
      (i : ℕ) (first second third : String) (now later at : Instant) (s : Session)
      → (acquire_sync_lock db settings i first now s).0 ≡ true
      → now + minutes settings.sync_lock_timeout_minutes ≤ later
      → let s1 = (acquire_sync_lock db settings i first now s).1 in
        let (taken, s2) = acquire_sync_lock db settings i second later s1 in
        (taken ≡ true)
        × ((acquire_sync_lock db settings i third at (release_sync_lock db i s2)).0 ≡ true)
  unfolding lock_is_free lock_profile unlock_profile
  release-frees_takeover i first second third now later at s h stale =
      let s1 = (acquire_sync_lock db settings i first now s).1 in
      let (p, _, row) = acquired_row i first now s h in
      let old = lock_profile now first p in
      let taken : (acquire_sync_lock db settings i second later s1).0 ≡ true =
        acquire-acquire i first second now later s h ∙ ground arith in
      let row2 = locked_row i second later s1 old row (ground arith) in
      let s2 = (acquire_sync_lock db settings i second later s1).1 in
      let row3 = released_row i s2 (lock_profile later second old) row2 in
      (
        taken,
        acquire-found i third at (release_sync_lock db i s2)
            (unlock_profile (lock_profile later second old)) row3,
      )
