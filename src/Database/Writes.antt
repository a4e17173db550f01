-- ===== src/Database/Writes.antt =====
-- Changes of the attributes of one mapped row, and what is read after them.
use procore_intake_bridge.Base.{
  ℕ, ◌≡◌, sym, subst, key-find_row, Option, some, find_row, update_row, find_row-update_row_self,
  ◌≢◌, find_row-update_row, ◌∙◌, arith,
}
use procore_intake_bridge.Models.{SyncProfile, WebhookEvent}
use procore_intake_bridge.Database.{Tables, Database}

abbrev pub find_profile : ℕ → Tables → Option SyncProfile
find_profile i t = find_row (λ (p : SyncProfile). p.id) i t.sync_profiles

abbrev pub find_event : ℕ → Tables → Option WebhookEvent
find_event i t = find_row (λ (e : WebhookEvent). e.id) i t.webhook_events

abbrev pub update_profile : ℕ → (SyncProfile → SyncProfile) → Tables → Tables
update_profile i f t = record t {
  sync_profiles = update_row (λ (p : SyncProfile). p.id) i f t.sync_profiles;
}

abbrev pub update_event : ℕ → (WebhookEvent → WebhookEvent) → Tables → Tables
update_event i f t = record t {
  webhook_events = update_row (λ (e : WebhookEvent). e.id) i f t.webhook_events;
}

module _ (db : Database) where
  open db use {Session, tables, write}

  unfoldable pub modify_profile : ℕ → (SyncProfile → SyncProfile) → Session → Session
  modify_profile i f s = write (update_profile i f (tables s)) s

  unfoldable pub modify_event : ℕ → (WebhookEvent → WebhookEvent) → Session → Session
  modify_event i f s = write (update_event i f (tables s)) s

  pub tables-modify_profile :
      (i : ℕ) (f : SyncProfile → SyncProfile) (s : Session)
      → tables (modify_profile i f s) ≡ update_profile i f (tables s)
  unfolding modify_profile
  tables-modify_profile i f s = db.tables-write _ s

  pub tables-modify_event :
      (i : ℕ) (f : WebhookEvent → WebhookEvent) (s : Session)
      → tables (modify_event i f s) ≡ update_event i f (tables s)
  unfolding modify_event
  tables-modify_event i f s = db.tables-write _ s

  pub rollback-modify_profile :
      (i : ℕ) (f : SyncProfile → SyncProfile) (s : Session)
      → db.rollback (modify_profile i f s) ≡ db.rollback s
  unfolding modify_profile
  rollback-modify_profile i f s = db.rollback-write _ s

  pub rollback-modify_event :
      (i : ℕ) (f : WebhookEvent → WebhookEvent) (s : Session)
      → db.rollback (modify_event i f s) ≡ db.rollback s
  unfolding modify_event
  rollback-modify_event i f s = db.rollback-write _ s

-- A row after an update of it that leaves the key alone.
pub find_profile-update :
    (f : SyncProfile → SyncProfile)
    → ((p : SyncProfile) → (f p).id ≡ p.id)
    → (i : ℕ) (t : Tables) (p : SyncProfile) → find_profile i t ≡ some p
    → find_profile i (update_profile i f t) ≡ some (f p)
find_profile-update f keeps i t p h = find_row-update_row_self _ f keeps i t.sync_profiles p h

pub find_event-update :
    (f : WebhookEvent → WebhookEvent)
    → ((e : WebhookEvent) → (f e).id ≡ e.id)
    → (i : ℕ) (t : Tables) (e : WebhookEvent) → find_event i t ≡ some e
    → find_event i (update_event i f t) ≡ some (f e)
find_event-update f keeps i t e h = find_row-update_row_self _ f keeps i t.webhook_events e h

-- A row that is found is found under its own key.
pub find_profile_own :
    (i : ℕ) (t : Tables) (p : SyncProfile)
    → find_profile i t ≡ some p
    → find_profile p.id t ≡ some p
find_profile_own i t p h =
    subst (λ k. find_profile k t ≡ some p) (sym (key-find_row _ i t.sync_profiles p h)) h

pub find_event_own :
    (i : ℕ) (t : Tables) (e : WebhookEvent) → find_event i t ≡ some e → find_event e.id t ≡ some e
find_event_own i t e h =
    subst (λ k. find_event k t ≡ some e) (sym (key-find_row _ i t.webhook_events e h)) h

-- An update of one event leaves the others.
pub find_event-update_ne :
    (f : WebhookEvent → WebhookEvent)
    → ((e : WebhookEvent) → (f e).id ≡ e.id)
    → (i j : ℕ) (t : Tables) → j ≢ i
    → find_event j (update_event i f t) ≡ find_event j t
find_event-update_ne f keeps i j t ne =
    find_row-update_row _ f keeps j i t.webhook_events ∙ ground (arith, ne)
