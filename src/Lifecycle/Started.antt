-- ===== src/Lifecycle/Started.antt =====
-- The tables in which a transition of app/services/intake_lifecycle.py starts, once the state of the record
-- is there: created, or loaded and repaired.
use procore_intake_bridge.Lifecycle.States.{
  find_state, repair_events, get_or_create_state, get_or_create_lifecycle_state, repair_event,
  update_state, new_state, normalize_legacy_lifecycle_data, canonical_state, repair_state,
}
use procore_intake_bridge.Base.{
  ℕ, ◌≡◌, ◌∙◌, ap, refl, subst, Bool, none, some, List, [], ◌∷◌, ◌==◌, arith, count, Option-cases,
  inl, inr, find_row-append_new, find_row-update_row_self,
}
use procore_intake_bridge.Models.{IntakeReviewState, IntakeReviewLifecycleEvent}
use procore_intake_bridge.Models.Settings.{Settings}
use procore_intake_bridge.Exceptions.{returned}
use procore_intake_bridge.Database.{Tables, Database}

abbrev pub is_event_of : ℕ → IntakeReviewLifecycleEvent → Bool
is_event_of i e = e.intake_record_id == i

abbrev pub event_total : ℕ → Tables → ℕ
event_total i t = count (is_event_of i) t.lifecycle_events

abbrev pub stored_count : ℕ → Tables → ℕ
stored_count i t = elim (find_state i t) [ none ↦ 0 | some state ↦ state.event_count ]

repair_events-count :
    (i : ℕ) (es : List IntakeReviewLifecycleEvent)
    → count (is_event_of i) (repair_events i es) ≡ count (is_event_of i) es
unfolding repair_events repair_event count
repair_events-count i [] = refl
repair_events-count i (e ∷ es) = ground (arith, repair_events-count i es)

pub find_state-update :
    (f : IntakeReviewState → IntakeReviewState)
    → ((x : IntakeReviewState) → (f x).intake_record_id ≡ x.intake_record_id)
    → (i : ℕ) (t : Tables) (state : IntakeReviewState) → find_state i t ≡ some state
    → find_state i (update_state i f t) ≡ some (f state)
find_state-update f keeps i t state found =
    find_row-update_row_self (λ (x : IntakeReviewState). x.intake_record_id) f keeps i
      t.review_states state found

module _ (db : Database) (has_tables : db.Session → Bool) (settings : Settings) where
  open db use {Session, tables, write, commit}

  -- The tables in which a transition starts: the state is there, and no event was added.
  pub record IsStarted (i : ℕ) (s : Session) (out : IntakeReviewState × Session) : Type 0 where
    pub stored : find_state i (tables out.1) ≡ some out.0
    pub same_count : out.0.event_count ≡ stored_count i (tables s)
    pub same_total : event_total i (tables out.1) ≡ event_total i (tables s)

  create_state-IsStarted :
      (i key : ℕ) (s : Session)
      → find_state i (tables s) ≡ none
      → IsStarted i s (get_or_create_state db has_tables settings i key s)
  unfolding get_or_create_state new_state
  create_state-IsStarted i key s missing =
      rw (missing, get_or_create_state)
        (record {
          stored =
              ap (find_state i) (db.tables-write _ s)
              ∙ find_row-append_new (λ (x : IntakeReviewState). x.intake_record_id) i
                  (tables s).review_states _ missing refl;
          same_count = ground (arith, missing);
          same_total = ap (event_total i) (db.tables-write _ s);
        })

  load_state-IsStarted :
      (i key : ℕ) (s : Session) (state : IntakeReviewState)
      → find_state i (tables s) ≡ some state
      → IsStarted i s (get_or_create_state db has_tables settings i key s)
  unfolding get_or_create_state normalize_legacy_lifecycle_data canonical_state repair_state
  load_state-IsStarted i key s state found =
      let t1 = update_state i canonical_state (tables s) in
      rw (found, get_or_create_state)
        (record {
          stored =
              ap (find_state i) (db.tables-write _ s)
              ∙ find_state-update repair_state (λ x. refl) i t1 (canonical_state state)
                  (find_state-update canonical_state (λ x. refl) i (tables s) state found);
          same_count = ground (arith, found);
          same_total =
              ap (event_total i) (db.tables-write _ s)
              ∙ repair_events-count i (tables s).lifecycle_events;
        })

  get_or_create_state-IsStarted :
      (i key : ℕ) (s : Session) → IsStarted i s (get_or_create_state db has_tables settings i key s)
  get_or_create_state-IsStarted i key s = elim (Option-cases (find_state i (tables s))) [
    | inl missing ↦ create_state-IsStarted i key s missing
    | inr (state, found) ↦ load_state-IsStarted i key s state found
  ]

  created_state :
      (i key : ℕ) (s : Session) (state : IntakeReviewState)
      → (get_or_create_lifecycle_state db has_tables settings i key s).0 ≡ returned state
      → (get_or_create_state db has_tables settings i key s).0 ≡ state
  unfolding get_or_create_lifecycle_state
  created_state i key s state h = ground (arith, h)

  created_session :
      (i key : ℕ) (s : Session) (state : IntakeReviewState)
      → (get_or_create_lifecycle_state db has_tables settings i key s).0 ≡ returned state
      → (get_or_create_state db has_tables settings i key s).1
        ≡ (get_or_create_lifecycle_state db has_tables settings i key s).1
  unfolding get_or_create_lifecycle_state
  created_session i key s state h = ground (arith, h)

  pub get_or_create-IsStarted :
      (i key : ℕ) (s : Session) (state : IntakeReviewState)
      → (get_or_create_lifecycle_state db has_tables settings i key s).0 ≡ returned state
      → IsStarted i s (state, (get_or_create_lifecycle_state db has_tables settings i key s).1)
  get_or_create-IsStarted i key s state h =
      let (_, s1) = get_or_create_state db has_tables settings i key s in
      subst (λ s'. IsStarted i s (state, s')) (created_session i key s state h)
        (subst (λ x. IsStarted i s (x, s1)) (created_state i key s state h)
          (get_or_create_state-IsStarted i key s))
