-- ===== src/Lifecycle/Audit.antt =====
-- The audit trail of app/services/intake_lifecycle.py: an accepted request adds one event to it, and the
-- count of events in a state is the number of its events, within the configured bound.
use procore_intake_bridge.Lifecycle.Outcome.{
  transitioned, IsAccepted, apply_cases, refusal-IsAccepted,
}
use procore_intake_bridge.Lifecycle.Transition.{
  transitioned_state, TransitionRequest, Stamp, TransitionResult, add_event, transition_event,
  apply_lifecycle_transition,
}
use procore_intake_bridge.Lifecycle.Texts.{Patterns}
use procore_intake_bridge.Lifecycle.Views.{state_view, event_item}
use procore_intake_bridge.Lifecycle.Recorded.{
  IsMoved, IsRecorded, transitioned_state-IsMoved, transition_event-IsRecorded,
}
use procore_intake_bridge.Lifecycle.States.{find_state, get_or_create_lifecycle_state}
use procore_intake_bridge.Base.{
  ℕ, ◌≡◌, ◌∙◌, ◌≤◌, ◌+◌, ap, sym, refl, subst, Bool, some, [], ◌∷◌, ◌++◌, arith, count, inl, inr,
  count-append_one, key-find_row,
}
use procore_intake_bridge.Models.{IntakeReviewState, IntakeReviewLifecycleEvent}
use procore_intake_bridge.Models.Settings.{Settings}
use procore_intake_bridge.Exceptions.{Result, returned, returned-injective}
use procore_intake_bridge.Database.{Tables, Database, committed}
use procore_intake_bridge.Lifecycle.Started.{
  is_event_of, event_total, stored_count, find_state-update, IsStarted, get_or_create-IsStarted,
}

-- The count in the state of a record is the number of its events, and the bound is kept.
pub record IsAudited (settings : Settings) (i : ℕ) (t : Tables) : Type 0 where
  pub counted : stored_count i t ≡ event_total i t
  pub bounded : stored_count i t ≤ settings.intake_lifecycle_max_events_per_record

module _ (patterns : Patterns) (settings : Settings) (db : Database)
    (has_tables : db.Session → Bool) where
  open db use {Session, tables, write, commit, rollback}

  transitioned-row :
      (i : ℕ) (state : IntakeReviewState) (request : TransitionRequest) (stamp : Stamp)
      (s : Session)
      → find_state i (tables s) ≡ some state
      → find_state i
          (tables (commit (transitioned patterns settings db has_tables i state request stamp s)))
        ≡ some (transitioned_state patterns settings request state)
  unfolding transitioned_state
  transitioned-row i state request stamp s found =
      ap (find_state i) (db.tables-commit _ ∙ db.tables-write _ s)
      ∙ find_state-update (transitioned_state patterns settings request) (λ x. refl) i
          (add_event (transition_event patterns settings state request stamp) (tables s)) state
          found

  transitioned-events :
      (i : ℕ) (state : IntakeReviewState) (request : TransitionRequest) (stamp : Stamp)
      (s : Session)
      → (tables (
          commit (
            transitioned patterns settings db has_tables i state request stamp s))).lifecycle_events
        ≡ (tables s).lifecycle_events
          ++ (transition_event patterns settings state request stamp ∷ [])
  transitioned-events i state request stamp s =
      ap (λ t. t.lifecycle_events) (db.tables-commit _ ∙ db.tables-write _ s)

  -- A request that returns was accepted from a state of the record: its status is one of the five and
  -- the move is allowed. The row that is stored has the status, the reason and the actor of the request
  -- and one event more, and its record and id as before. One event is added at the end of the trail,
  -- from the status before to the new one; the answer shows this row and this event, and all is
  -- committed.
  pub apply_returned_lem :
      (i : ℕ) (request : TransitionRequest) (stamp : Stamp) (s : Session)
      (result : TransitionResult)
      → (apply_lifecycle_transition patterns settings db has_tables i request stamp s).0
        ≡ returned result
      → let s' = (apply_lifecycle_transition patterns settings db has_tables i request stamp s).1 in
        let before = (get_or_create_lifecycle_state db has_tables settings i stamp.state_key s).1 in
        (state : IntakeReviewState) × (after : IntakeReviewState)
        × (event : IntakeReviewLifecycleEvent) × IsAccepted settings state request
        × IsMoved patterns settings request state after
        × IsRecorded patterns settings request state stamp event
        × (find_state i (tables before) ≡ some state)
        × (find_state i (tables s') ≡ some after)
        × ((tables s').lifecycle_events ≡ (tables before).lifecycle_events ++ (event ∷ []))
        × (result.state ≡ state_view patterns after)
        × (result.event ≡ event_item patterns event)
        × (committed db s' ≡ tables s')
  apply_returned_lem i request stamp s result h =
      elim (apply_cases patterns settings db has_tables i request stamp s) [
        | inl (e, out) ↦ cc (sym h ∙ ap (λ (o : Result TransitionResult × Session). o.0) out)
        | inr (state, start, accepted, out) ↦
            let before =
              (get_or_create_lifecycle_state db has_tables settings i stamp.state_key s).1 in
            let found =
              (get_or_create-IsStarted db has_tables settings i stamp.state_key s state
                start).stored in
            let answer =
              returned-injective
                (sym h ∙ ap (λ (o : Result TransitionResult × Session). o.0) out) in
            rw out (
              state,
              transitioned_state patterns settings request state,
              transition_event patterns settings state request stamp,
              refusal-IsAccepted patterns settings state request accepted,
              transitioned_state-IsMoved patterns settings request state,
              transition_event-IsRecorded patterns settings request state stamp,
              found,
              transitioned-row i state request stamp before found,
              transitioned-events i state request stamp before,
              ap (λ (o : TransitionResult). o.state) answer,
              ap (λ (o : TransitionResult). o.event) answer,
              db.rollback-commit _ ∙ sym (db.tables-commit _),
            )
      ]

  stored_count_of :
      (i : ℕ) (t : Tables) (state : IntakeReviewState)
      → find_state i t ≡ some state
      → stored_count i t ≡ state.event_count
  stored_count_of i t state found = ground (arith, found)

  transitioned-total :
      (i : ℕ) (state : IntakeReviewState) (request : TransitionRequest) (stamp : Stamp)
      (s : Session)
      → state.intake_record_id ≡ i
      → event_total i
          (tables (commit (transitioned patterns settings db has_tables i state request stamp s)))
        ≡ event_total i (tables s) + 1
  unfolding transition_event
  transitioned-total i state request stamp s own =
      ap (count (is_event_of i)) (transitioned-events i state request stamp s)
      ∙ count-append_one (is_event_of i) (tables s).lifecycle_events
          (transition_event patterns settings state request stamp)
      ∙ ground (arith, own)

  transitioned-IsAudited :
      (i : ℕ) (state : IntakeReviewState) (request : TransitionRequest) (stamp : Stamp)
      (s s1 : Session)
      → IsStarted db has_tables settings i s (state, s1)
      → IsAccepted settings state request
      → IsAudited settings i (tables s)
      → IsAudited settings i
          (tables (commit (transitioned patterns settings db has_tables i state request stamp s1)))
  unfolding transitioned_state
  transitioned-IsAudited i state request stamp s s1 start accepted audited =
      let own =
        key-find_row (λ (x : IntakeReviewState). x.intake_record_id) i (tables s1).review_states
          state start.stored in
      let row =
        stored_count_of i
          (tables (commit (transitioned patterns settings db has_tables i state request stamp s1)))
          _ (transitioned-row i state request stamp s1 start.stored) in
      let total = transitioned-total i state request stamp s1 own in
      record {
        counted =
            row
            ∙ ap (λ n. n + 1) (start.same_count ∙ audited.counted ∙ sym start.same_total)
            ∙ sym total;
        bounded =
            subst (λ n. n ≤ settings.intake_lifecycle_max_events_per_record) (sym row)
              (omega (arith, accepted.events_left));
      }

  -- Whatever a request does, return or raise, the trail of its record stays audited, if the session
  -- had nothing pending: the stored count is the number of events, and it does not pass the bound.
  pub apply-IsAudited :
      (i : ℕ) (request : TransitionRequest) (stamp : Stamp) (s : Session)
      → committed db s ≡ tables s
      → IsAudited settings i (tables s)
      → IsAudited settings i
          (tables (apply_lifecycle_transition patterns settings db has_tables i request stamp s).1)
  apply-IsAudited i request stamp s clean audited =
      elim (apply_cases patterns settings db has_tables i request stamp s) [
        | inl (e, out) ↦ rw out (subst (IsAudited settings i) (sym clean) audited)
        | inr (state, start, accepted, out) ↦ rw out (
            transitioned-IsAudited i state request stamp s _
              (get_or_create-IsStarted db has_tables settings i stamp.state_key s state start)
              (refusal-IsAccepted patterns settings state request accepted) audited)
      ]
