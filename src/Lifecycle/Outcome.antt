-- ===== src/Lifecycle/Outcome.antt =====
-- What apply_lifecycle_transition of app/services/intake_lifecycle.py leaves, where it returns and
-- where it raises.
use procore_intake_bridge.Base.{
  ℕ, ◌≡◌, ◌<◌, Bool, true, none, some, arith, Option-cases, inl, inr, ◌⊎◌, Bool-cases, ap, ◌∙◌, sym,
  false,
}
use procore_intake_bridge.Models.{IntakeReviewState}
use procore_intake_bridge.Models.Settings.{Settings}
use procore_intake_bridge.Exceptions.{
  Exception, raised, returned, lifecycle_blocked, Result, Result-cases,
}
use procore_intake_bridge.Database.{Database}
use procore_intake_bridge.Lifecycle.Vocabulary.{Status, status_of, is_allowed}
use procore_intake_bridge.Lifecycle.Texts.{Patterns, is_unsafe_response}
use procore_intake_bridge.Lifecycle.States.{
  get_or_create_state, get_or_create_lifecycle_state, find_state, update_state,
}
use procore_intake_bridge.Lifecycle.Transition.{
  TransitionRequest, Stamp, refusal, validate_lifecycle_transition, transition_from,
  attempt_transition, transitioned_state, add_event, transition_result, transition_event,
  TransitionResult, apply_lifecycle_transition, rollback_raised,
}

-- A state from which a request is not refused.
pub record IsAccepted (settings : Settings) (state : IntakeReviewState)
    (request : TransitionRequest) : Type 0 where
  pub source : Status
  pub status_known : status_of state.status ≡ some source
  pub edge : is_allowed source request.to_status ≡ true
  pub events_left : state.event_count < settings.intake_lifecycle_max_events_per_record

module _ (patterns : Patterns) (settings : Settings) where
  IsAccepted-of_valid :
      (state : IntakeReviewState) (request : TransitionRequest)
      → state.event_count < settings.intake_lifecycle_max_events_per_record
      → validate_lifecycle_transition patterns settings state.status request.to_status
          request.reason_code
        ≡ none
      → IsAccepted settings state request
  unfolding validate_lifecycle_transition
  IsAccepted-of_valid state request left valid = elim (Option-cases (status_of state.status)) [
    | inl unknown ↦ ground (arith, valid, unknown)
    | inr (source, known) ↦ record {
      source = source;
      status_known = known;
      edge = ground (arith, valid, known);
      events_left = left;
    }
  ]

  refusal-none :
      (state : IntakeReviewState) (request : TransitionRequest)
      → refusal patterns settings state request ≡ none
      → (state.event_count < settings.intake_lifecycle_max_events_per_record)
        × (validate_lifecycle_transition patterns settings state.status request.to_status
              request.reason_code
            ≡ none)
  unfolding refusal
  refusal-none state request h = (ground (arith, h), ground (arith, h))

  pub refusal-IsAccepted :
      (state : IntakeReviewState) (request : TransitionRequest)
      → refusal patterns settings state request ≡ none
      → IsAccepted settings state request
  refusal-IsAccepted state request h =
      let (left, valid) = refusal-none state request h in
      IsAccepted-of_valid state request left valid

  module _ (db : Database) (has_tables : db.Session → Bool) where
    open db use {Session, tables, write, commit, rollback}

    get_or_create_state-rollback :
        (i key : ℕ) (s : Session)
        → rollback (get_or_create_state db has_tables settings i key s).1 ≡ rollback s
    unfolding get_or_create_state
    get_or_create_state-rollback i key s = elim (Option-cases (find_state i (tables s))) [
      | inl missing ↦ rw (missing, get_or_create_state) (db.rollback-write _ s)
      | inr (state, found) ↦ rw (found, get_or_create_state) (db.rollback-write _ s)
    ]

    get_or_create-rollback :
        (i key : ℕ) (s : Session)
        → rollback (get_or_create_lifecycle_state db has_tables settings i key s).1 ≡ rollback s
    unfolding get_or_create_lifecycle_state
    get_or_create-rollback i key s = ground (arith, get_or_create_state-rollback i key s)

    -- The session with the new event and the changed state.
    abbrev pub transitioned : ℕ → IntakeReviewState → TransitionRequest → Stamp → Session → Session
    transitioned i state request stamp s =
        write
          (update_state i (transitioned_state patterns settings request)
            (add_event (transition_event patterns settings state request stamp) (tables s)))
          s

    -- The ways in which a transition from a state can end.
    pub transition_from_cases :
        (i : ℕ) (state : IntakeReviewState) (request : TransitionRequest) (stamp : Stamp)
        (s : Session)
        → ((e : Exception) × (transition_from patterns settings db has_tables i state request stamp
                s
              ≡ (raised e, s)))
          ⊎ ((e : Exception) × (transition_from patterns settings db has_tables i state request
                  stamp s
                ≡ (raised e, transitioned i state request stamp s)))
          ⊎ ((refusal patterns settings state request ≡ none)
              × (transition_from patterns settings db has_tables i state request stamp s ≡ (
                returned (transition_result patterns settings state request stamp),
                commit (transitioned i state request stamp s),
              )))
    unfolding transition_from
    transition_from_cases i state request stamp s =
        elim (Option-cases (refusal patterns settings state request)) [
          | inr (e, refused) ↦ inl (e, rw (refused, transition_from))
          | inl accepted ↦
              elim (Bool-cases (
                is_unsafe_response patterns TransitionResult
                  (transition_result patterns settings state request stamp))) [
                    | inl unsafe ↦ inr (
                        inl (
                          lifecycle_blocked "Unsafe lifecycle response was blocked.",
                          rw (accepted, unsafe, transition_from),
                        ))
                    | inr safe ↦ inr (inr (accepted, rw (accepted, safe, transition_from)))
                  ]
        ]

    -- The state that a transition starts from, and the session that has it.
    abbrev started : ℕ → Stamp → Session → Result IntakeReviewState × Session
    started i stamp s = get_or_create_lifecycle_state db has_tables settings i stamp.state_key s

    attempt_created :
        (i : ℕ) (request : TransitionRequest) (stamp : Stamp) (s : Session)
        (state : IntakeReviewState)
        → (started i stamp s).0 ≡ returned state
        → attempt_transition patterns settings db has_tables i request stamp s
          ≡ transition_from patterns settings db has_tables i state request stamp
              (started i stamp s).1
    unfolding attempt_transition
    attempt_created i request stamp s state h = rw (h, attempt_transition)

    attempt_blocked :
        (i : ℕ) (request : TransitionRequest) (stamp : Stamp) (s : Session) (e : Exception)
        → (started i stamp s).0 ≡ raised e
        → attempt_transition patterns settings db has_tables i request stamp s
          ≡ (raised e, (started i stamp s).1)
    unfolding attempt_transition
    attempt_blocked i request stamp s e h = rw (h, attempt_transition)

    apply_of_raised :
        (i : ℕ) (request : TransitionRequest) (stamp : Stamp) (s s1 : Session) (e : Exception)
        → attempt_transition patterns settings db has_tables i request stamp s ≡ (raised e, s1)
        → apply_lifecycle_transition patterns settings db has_tables i request stamp s
          ≡ (raised e, rollback s1)
    unfolding apply_lifecycle_transition
    apply_of_raised i request stamp s s1 e h =
        ap (rollback_raised patterns settings db has_tables) h

    apply_of_returned :
        (i : ℕ) (request : TransitionRequest) (stamp : Stamp) (s s1 : Session)
        (result : TransitionResult)
        → attempt_transition patterns settings db has_tables i request stamp s
          ≡ (returned result, s1)
        → apply_lifecycle_transition patterns settings db has_tables i request stamp s
          ≡ (returned result, s1)
    unfolding apply_lifecycle_transition
    apply_of_returned i request stamp s s1 result h =
        ap (rollback_raised patterns settings db has_tables) h

    transition_from_accepted :
        (i : ℕ) (state : IntakeReviewState) (request : TransitionRequest) (stamp : Stamp)
        (s : Session)
        → refusal patterns settings state request ≡ none
        → is_unsafe_response patterns TransitionResult
            (transition_result patterns settings state request stamp)
          ≡ false
        → transition_from patterns settings db has_tables i state request stamp s ≡ (
          returned (transition_result patterns settings state request stamp),
          commit (transitioned i state request stamp s),
        )
    unfolding transition_from
    transition_from_accepted i state request stamp s accepted safe =
        rw (accepted, safe, transition_from)

    -- A request that is not refused, and whose response is safe, is carried out and committed.
    pub apply_accepted :
        (i : ℕ) (request : TransitionRequest) (stamp : Stamp) (s : Session)
        (state : IntakeReviewState)
        → (started i stamp s).0 ≡ returned state
        → refusal patterns settings state request ≡ none
        → is_unsafe_response patterns TransitionResult
            (transition_result patterns settings state request stamp)
          ≡ false
        → apply_lifecycle_transition patterns settings db has_tables i request stamp s ≡ (
          returned (transition_result patterns settings state request stamp),
          commit (transitioned i state request stamp (started i stamp s).1),
        )
    apply_accepted i request stamp s state start accepted safe =
        apply_of_returned i request stamp s _ _ (
          attempt_created i request stamp s state start
          ∙ transition_from_accepted i state request stamp _ accepted safe)

    -- A request raises and everything it wrote is rolled back, or it is accepted and committed.
    pub apply_cases :
        (i : ℕ) (request : TransitionRequest) (stamp : Stamp) (s : Session)
        → ((e : Exception) × (apply_lifecycle_transition patterns settings db has_tables i request
                stamp s
              ≡ (raised e, rollback s)))
          ⊎ ((state : IntakeReviewState) × ((started i stamp s).0 ≡ returned state)
              × (refusal patterns settings state request ≡ none)
              × (apply_lifecycle_transition patterns settings db has_tables i request stamp s ≡ (
                returned (transition_result patterns settings state request stamp),
                commit (transitioned i state request stamp (started i stamp s).1),
              )))
    apply_cases i request stamp s =
        let s1 = (started i stamp s).1 in
        let undone : rollback s1 ≡ rollback s = get_or_create-rollback i stamp.state_key s in
        elim (Result-cases (started i stamp s).0) [
          | inr (e, h) ↦ inl (
            e,
            apply_of_raised i request stamp s s1 e (attempt_blocked i request stamp s e h)
                ∙ ap (λ k. (raised e, k)) undone,
          )
          | inl (state, h) ↦
              let at = attempt_created i request stamp s state h in
              elim (transition_from_cases i state request stamp s1) [
                | inl (e, out) ↦ inl (
                  e,
                  apply_of_raised i request stamp s s1 e (at ∙ out)
                      ∙ ap (λ k. (raised e, k)) undone,
                )
                | inr (inl (e, out)) ↦ inl (
                  e,
                  apply_of_raised i request stamp s _ e (at ∙ out)
                      ∙ ap (λ k. (raised e, k)) (db.rollback-write _ s1 ∙ undone),
                )
                | inr (inr (accepted, out)) ↦
                    inr (state, h, accepted, apply_of_returned i request stamp s _ _ (at ∙ out))
              ]
        ]

    -- A request that raises, at whatever point, leaves what was committed before it, and nothing of
    -- what it wrote, the state that it created included.
    pub apply_raised_rolls_back :
        (i : ℕ) (request : TransitionRequest) (stamp : Stamp) (s : Session) (e : Exception)
        → (apply_lifecycle_transition patterns settings db has_tables i request stamp s).0
          ≡ raised e
        → (apply_lifecycle_transition patterns settings db has_tables i request stamp s).1
          ≡ rollback s
    apply_raised_rolls_back i request stamp s e h = elim (apply_cases i request stamp s) [
      | inl (x, out) ↦ ap (λ (o : Result TransitionResult × Session). o.1) out
      | inr (state, _, _, out) ↦
          cc (sym h ∙ ap (λ (o : Result TransitionResult × Session). o.0) out)
    ]
