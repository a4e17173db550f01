-- ===== src/EventQueue/Mapping.antt =====
-- The mapping of an event to a profile (`_find_mapping` of app/services/event_queue.py).
use procore_intake_bridge.Polling.Run.{is_live}
use procore_intake_bridge.Base.{
  ◌≡◌, String, true, false, ◌&&◌, Option, none, some, List, [], ◌∷◌, ◌++◌, arith, All, refl, eq_iff,
  Option-cases, Bool-cases, inl, inr, sym, ◌∙◌, ap, if◌then◌else◌, Bool,
}
use procore_intake_bridge.Models.{
  ResourceType, rfi, submittal, SyncMode, mock, live, DmsaConnection, SyncProfile,
}
use procore_intake_bridge.Database.{Tables}
use procore_intake_bridge.EventQueue.Events.{
  find_connection, company_matches, profile_matches, supports, first_mapping, find_mapping,
}

-- The profile syncs the resources of the type.
abbrev pub Syncs : ResourceType → SyncProfile → Type 0
Syncs rfi p = p.sync_rfis ≡ true
Syncs submittal p = p.sync_submittals ≡ true
Syncs _ p = ⊥

-- The connection is of the company, where there is one.
abbrev pub OfCompany : Option String → DmsaConnection → Type 0
OfCompany none c = Unit
OfCompany (some company) c = c.procore_company_id ≡ company

-- The profile, with the connection that it names, takes an event.
pub record IsTaker (company : Option String) (project : String) (resource : ResourceType)
    (cs : List DmsaConnection) (p : SyncProfile) (c : DmsaConnection) : Type 0 where
  pub joined : find_connection p.connection_id cs ≡ some c
  pub of_project : p.procore_project_id ≡ project
  pub enabled : p.enabled ≡ true
  pub mocked : p.mode ≡ mock
  pub of_company : OfCompany company c
  pub syncs : Syncs resource p

module _ (company : Option String) (project : String) (resource : ResourceType)
    (cs : List DmsaConnection) where
  -- A profile that does not take the event, with any connection.
  abbrev pub IsPassed : SyncProfile → Type 0
  IsPassed p = ¬ ((c : DmsaConnection) × IsTaker company project resource cs p c)

  -- The answer is the first profile that takes the event, or none where no profile does.
  abbrev pub IsFirst : List SyncProfile → Option (DmsaConnection × SyncProfile) → Type 0
  IsFirst ps none = All IsPassed ps
  IsFirst ps (some (c, p)) =
      (passed : List SyncProfile) × (later : List SyncProfile) × (ps ≡ passed ++ (p ∷ later))
      × All IsPassed passed
      × IsTaker company project resource cs p c

  Syncs-supports :
      (resource : ResourceType) (p : SyncProfile) → Syncs resource p → supports resource p ≡ true
  unfolding supports
  Syncs-supports rfi p h = h
  Syncs-supports submittal p h = h
  Syncs-supports _ p h = absurd h

  supports-Syncs :
      (resource : ResourceType) (p : SyncProfile) → supports resource p ≡ true → Syncs resource p
  unfolding supports
  supports-Syncs rfi p h = h
  supports-Syncs submittal p h = h
  supports-Syncs _ p h = cc

  OfCompany-company_matches :
      (company : Option String) (c : DmsaConnection)
      → OfCompany company c
      → company_matches company c ≡ true
  unfolding company_matches
  OfCompany-company_matches none c h = refl
  OfCompany-company_matches (some company) c h = (eq_iff _ company).1 h

  company_matches-OfCompany :
      (company : Option String) (c : DmsaConnection)
      → company_matches company c ≡ true
      → OfCompany company c
  unfolding company_matches
  company_matches-OfCompany none c h = tt
  company_matches-OfCompany (some company) c h = (eq_iff _ company).0 h

  is_live-mock : (mode : SyncMode) → (if is_live mode then false else true) ≡ true → mode ≡ mock
  is_live-mock mock h = refl
  is_live-mock live h = cc

  -- The test of the query, and what it tests.
  abbrev takes : SyncProfile → DmsaConnection → Bool
  takes p c = profile_matches company project p c && supports resource p

  takes-IsTaker :
      (p : SyncProfile) (c : DmsaConnection)
      → find_connection p.connection_id cs ≡ some c
      → takes p c ≡ true
      → IsTaker company project resource cs p c
  unfolding profile_matches
  takes-IsTaker p c found h = record {
    joined = found;
    of_project = (eq_iff _ project).0 (ground (arith, h));
    enabled = ground (arith, h);
    mocked = is_live-mock p.mode (ground (arith, h));
    of_company = company_matches-OfCompany company c (ground (arith, h));
    syncs = supports-Syncs resource p (ground (arith, h));
  }

  IsTaker-takes :
      (p : SyncProfile) (c : DmsaConnection)
      → IsTaker company project resource cs p c
      → takes p c ≡ true
  unfolding profile_matches
  IsTaker-takes p c h = ground (
    arith,
    (eq_iff _ project).1 h.of_project,
    h.enabled,
    h.mocked,
    OfCompany-company_matches company c h.of_company,
    Syncs-supports resource p h.syncs,
  )

  IsFirst-cons :
      (p : SyncProfile) (ps : List SyncProfile) (answer : Option (DmsaConnection × SyncProfile))
      → IsPassed p
      → IsFirst ps answer
      → IsFirst (p ∷ ps) answer
  IsFirst-cons p ps none h rest = (h, rest)
  IsFirst-cons p ps (some (c, q)) h (passed, later, split, all_passed, taker) =
      (p ∷ passed, later, ap (λ qs. p ∷ qs) split, (h, all_passed), taker)

  unjoined-IsPassed : (p : SyncProfile) → find_connection p.connection_id cs ≡ none → IsPassed p
  unjoined-IsPassed p missing (c, taker) = cc (sym missing ∙ taker.joined)

  untaken-IsPassed :
      (p : SyncProfile) (c : DmsaConnection)
      → find_connection p.connection_id cs ≡ some c
      → takes p c ≡ false
      → IsPassed p
  untaken-IsPassed p c found h (d, taker) =
      let own : c ≡ d = cc (sym found ∙ taker.joined) in
      cc (sym h ∙ ap (takes p) own ∙ IsTaker-takes p d taker)

  first_mapping-IsFirst :
      (ps : List SyncProfile) → IsFirst ps (first_mapping company project resource cs ps)
  unfolding first_mapping
  first_mapping-IsFirst [] = tt
  first_mapping-IsFirst (p ∷ ps) = elim (Option-cases (find_connection p.connection_id cs)) [
    | inl missing ↦
        rw (missing, first_mapping)
          (IsFirst-cons p ps _ (unjoined-IsPassed p missing) (first_mapping-IsFirst ps))
    | inr (c, found) ↦ elim (Bool-cases (takes p c)) [
      | inl own ↦ rw (found, own, first_mapping) ([], ps, refl, tt, takes-IsTaker p c found own)
      | inr not_own ↦
          rw (found, not_own, first_mapping)
            (IsFirst-cons p ps _ (untaken-IsPassed p c found not_own) (first_mapping-IsFirst ps))
    ]
  ]

-- An event with a project is mapped to the first profile of the table that is enabled, in mock mode, of
-- that project, syncs the resource type, and names a connection of the event's company if it has one;
-- it is left without a profile only if no profile of the table is such a one.
pub find_mapping_lem :
    (company : Option String) (project : String) (resource : ResourceType) (t : Tables)
    → IsFirst company project resource t.connections t.sync_profiles
        (find_mapping company (some project) resource t)
unfolding find_mapping
find_mapping_lem company project resource t =
    first_mapping-IsFirst company project resource t.connections t.sync_profiles
