-- ===== src/EventQueue/Selection.antt =====
-- Which events a round of app/services/event_queue.py takes: the earliest ready ones, up to the limit.
use mathlib.Core.List.{Perm, perm_middle}
use mathlib.Core.List.Perm
use procore_intake_bridge.Base.Sort.{sort, IsSorted, sort-perm, sort-IsSorted, All-sort}
use procore_intake_bridge.Base.{
  ℕ, zero, suc, ◌≡◌, ◌⊎◌, ap, refl, Bool, true, List, [], ◌∷◌, ◌++◌, arith, min, length, take, drop,
  select, All, All-select, length-take, ◌<◌, not, ◌≤◌, Bool-cases, inl, inr, All-map,
}
use procore_intake_bridge.Models.{Instant, WebhookEvent, ProcessingStatus}
use procore_intake_bridge.Database.{Tables}
use procore_intake_bridge.EventQueue.Events.{is_ready, is_before, find_queued_events, is_queued}

is_before_total : (a b : WebhookEvent) → (is_before a b ≡ true) ⊎ (is_before b a ≡ true)
is_before_total a b = ground arith

is_before_trans :
    (a b c : WebhookEvent) → is_before a b ≡ true → is_before b c ≡ true → is_before a c ≡ true
is_before_trans a b c h k = ground arith

take-drop {ℓ} : {A : Type ℓ} → (n : ℕ) (xs : List A) → take n xs ++ drop n xs ≡ xs
take-drop zero xs = refl
take-drop (suc n) [] = refl
take-drop (suc n) (x ∷ xs) = ap (λ ys. x ∷ ys) (take-drop n xs)

-- What a round may take: the event is queued, and its time has come.
pub record IsEligible (now : Instant) (e : WebhookEvent) : Type 0 where
  pub queued : e.processing_status ≡ ProcessingStatus.queued
  pub available : e.available_at ≤ now

-- Received earlier, or at the same time and stored earlier.
abbrev pub IsEarlier : WebhookEvent → WebhookEvent → Type 0
IsEarlier a b = (a.received_at < b.received_at) ⊎ ((a.received_at ≡ b.received_at) × (a.id ≤ b.id))

-- Every event is earlier than those behind it.
abbrev pub IsChronological : List WebhookEvent → Type 0
IsChronological [] = Unit
IsChronological (e ∷ es) = All (IsEarlier e) es × IsChronological es

is_before-IsEarlier : (a b : WebhookEvent) → is_before a b ≡ true → IsEarlier a b
is_before-IsEarlier a b h = ground (arith, h)

All-IsEarlier :
    (e : WebhookEvent) (es : List WebhookEvent)
    → All (λ x. is_before e x ≡ true) es
    → All (IsEarlier e) es
All-IsEarlier e [] h = tt
All-IsEarlier e (x ∷ es) h = (is_before-IsEarlier e x h.0, All-IsEarlier e es h.1)

IsSorted-IsChronological : (es : List WebhookEvent) → IsSorted is_before es → IsChronological es
IsSorted-IsChronological [] h = tt
IsSorted-IsChronological (e ∷ es) h = (All-IsEarlier e es h.0, IsSorted-IsChronological es h.1)

is_queued-queued :
    (status : ProcessingStatus) → is_queued status ≡ true → status ≡ ProcessingStatus.queued
unfolding is_queued
is_queued-queued ProcessingStatus.queued h = refl
is_queued-queued _ h = cc

is_ready-IsEligible : (now : Instant) (e : WebhookEvent) → is_ready now e ≡ true → IsEligible now e
unfolding is_ready
is_ready-IsEligible now e h = record {
  queued = is_queued-queued e.processing_status (ground (arith, h));
  available = ground (arith, h);
}

IsEligible-is_ready : (now : Instant) (e : WebhookEvent) → IsEligible now e → is_ready now e ≡ true
unfolding is_ready is_queued
IsEligible-is_ready now e h = ground (arith, h.queued, h.available)

not_ready-IsEligible :
    (now : Instant) (e : WebhookEvent) → not (is_ready now e) ≡ true → ¬ IsEligible now e
not_ready-IsEligible now e h eligible = ground (arith, h, IsEligible-is_ready now e eligible)

-- The events that a test keeps and those that it does not are all events.
select-perm :
    (p : WebhookEvent → Bool) (es : List WebhookEvent)
    → Perm (select p es ++ select (λ e. not (p e)) es) es
unfolding select
select-perm p [] = Perm.refl []
select-perm p (e ∷ es) = elim (Bool-cases (p e)) [
  | inl keep ↦ rw keep (Perm.cons e (select-perm p es))
  | inr pass ↦ rw pass (Perm.trans (perm_middle _ _) (Perm.cons e (select-perm p es)))
]

-- An event is eligible if it is queued and its time has come. The events of the table are, up to their
-- order, the taken ones, those that are left for later and the others; the first two are eligible and no
-- other is. The taken ones, followed by those for later, stand in the order of reception and then of
-- ids, and as many are taken as the limit allows.
pub find_queued_events_lem :
    (limit : ℕ) (now : Instant) (t : Tables)
    → let es = find_queued_events limit now t in
      (later : List WebhookEvent) × (others : List WebhookEvent) × Perm
        ((es ++ later) ++ others)
        t.webhook_events
      × All (IsEligible now) (es ++ later)
      × All (λ e. ¬ IsEligible now e) others
      × IsChronological (es ++ later)
      × (length es ≡ min limit (length (es ++ later)))
unfolding find_queued_events
find_queued_events_lem limit now t =
    let ready = select (is_ready now) t.webhook_events in
    let others = select (λ e. not (is_ready now e)) t.webhook_events in
    let sorted = sort is_before ready in
    let whole = take-drop limit sorted in
    (
      drop limit sorted,
      others,
      rw whole (
          Perm.trans (Perm.append_right others (sort-perm is_before ready))
            (select-perm (is_ready now) t.webhook_events)),
      rw whole (
          All-sort is_before _ ready (
            All-map _ _ (is_ready-IsEligible now) ready
              (All-select (is_ready now) t.webhook_events))),
      All-map _ _ (not_ready-IsEligible now) others (All-select _ t.webhook_events),
      rw whole (
          IsSorted-IsChronological sorted
            (sort-IsSorted is_before is_before_total is_before_trans ready)),
      rw whole (length-take limit sorted),
    )
