-- ===== src/Triage/Order.antt =====
-- The order of the triage queue is total and transitive, whichever sort is asked for.
use procore_intake_bridge.Triage.Sorting.{
  TriageItem, codes, complement, leb_codes, received_or_epoch, key_le,
}
use procore_intake_bridge.Base.{ℕ, true, List, [], ◌∷◌, ◌≡◌, ◌⊎◌, arith, leb}
use procore_intake_bridge.Base.Int.{ℤ, leb_ℤ}
use procore_intake_bridge.Lifecycle.Vocabulary.{status_value}
use procore_intake_bridge.Triage.Vocabulary.{Sort, tool_value}
use procore_intake_bridge.Triage.Sorting.{is_before}

leb_total : (a b : ℕ) → (leb a b ≡ true) ⊎ (leb b a ≡ true)
leb_total a b = ground arith

leb_trans : (a b c : ℕ) → leb a b ≡ true → leb b c ≡ true → leb a c ≡ true
leb_trans a b c h k = ground (arith, h, k)

leb_ℤ_total : (a b : ℤ) → (leb_ℤ a b ≡ true) ⊎ (leb_ℤ b a ≡ true)
leb_ℤ_total a b = ground arith

leb_ℤ_trans : (a b c : ℤ) → leb_ℤ a b ≡ true → leb_ℤ b c ≡ true → leb_ℤ a c ≡ true
leb_ℤ_trans a b c h k = ground (arith, h, k)

leb_codes_total : (cs ds : List ℕ) → (leb_codes cs ds ≡ true) ⊎ (leb_codes ds cs ≡ true)
unfolding leb_codes
leb_codes_total [] ds = ground arith
leb_codes_total (c ∷ cs) [] = ground arith
leb_codes_total (c ∷ cs) (d ∷ ds) = ground (arith, leb_codes_total cs ds)

leb_codes_trans :
    (cs ds es : List ℕ) → leb_codes cs ds ≡ true → leb_codes ds es ≡ true → leb_codes cs es ≡ true
unfolding leb_codes
leb_codes_trans [] ds es h k = ground arith
leb_codes_trans (c ∷ cs) [] es h k = ground (arith, h)
leb_codes_trans (c ∷ cs) (d ∷ ds) [] h k = ground (arith, k)
leb_codes_trans (c ∷ cs) (d ∷ ds) (e ∷ es) h k = ground (arith, h, k, leb_codes_trans cs ds es)

key_le_total : (by : Sort) (a b : TriageItem) → (key_le by a b ≡ true) ⊎ (key_le by b a ≡ true)
unfolding key_le
key_le_total Sort.priority_desc a b = leb_ℤ_total b.priority_score a.priority_score
key_le_total Sort.priority_asc a b = leb_ℤ_total a.priority_score b.priority_score
key_le_total Sort.received_at_desc a b = leb_total _ _
key_le_total Sort.received_at_asc a b = leb_total _ _
key_le_total Sort.lifecycle_status_asc a b =
    leb_codes_total (codes (status_value a.lifecycle_status))
      (codes (status_value b.lifecycle_status))
key_le_total Sort.lifecycle_status_desc a b =
    leb_codes_total (complement (codes (status_value a.lifecycle_status)))
      (complement (codes (status_value b.lifecycle_status)))
key_le_total Sort.tool_asc a b =
    leb_codes_total (codes (tool_value a.tool)) (codes (tool_value b.tool))
key_le_total Sort.tool_desc a b =
    leb_codes_total (complement (codes (tool_value a.tool)))
      (complement (codes (tool_value b.tool)))

key_le_trans :
    (by : Sort) (a b c : TriageItem)
    → key_le by a b ≡ true
    → key_le by b c ≡ true
    → key_le by a c ≡ true
unfolding key_le
key_le_trans Sort.priority_desc a b c h k =
    leb_ℤ_trans c.priority_score b.priority_score a.priority_score k h
key_le_trans Sort.priority_asc a b c h k =
    leb_ℤ_trans a.priority_score b.priority_score c.priority_score h k
key_le_trans Sort.received_at_desc a b c h k =
    leb_trans (received_or_epoch c.received_at) (received_or_epoch b.received_at) _ k h
key_le_trans Sort.received_at_asc a b c h k =
    leb_trans _ (received_or_epoch b.received_at) (received_or_epoch c.received_at) h k
key_le_trans Sort.lifecycle_status_asc a b c h k =
    leb_codes_trans _ (codes (status_value b.lifecycle_status)) _ h k
key_le_trans Sort.lifecycle_status_desc a b c h k =
    leb_codes_trans _ (complement (codes (status_value b.lifecycle_status))) _ h k
key_le_trans Sort.tool_asc a b c h k = leb_codes_trans _ (codes (tool_value b.tool)) _ h k
key_le_trans Sort.tool_desc a b c h k =
    leb_codes_trans _ (complement (codes (tool_value b.tool))) _ h k

pub is_before_total :
    (by : Sort) (a b : TriageItem) → (is_before by a b ≡ true) ⊎ (is_before by b a ≡ true)
unfolding is_before
is_before_total by a b = ground (arith, key_le_total by a b)

pub is_before_trans :
    (by : Sort) (a b c : TriageItem)
    → is_before by a b ≡ true
    → is_before by b c ≡ true
    → is_before by a c ≡ true
unfolding is_before
is_before_trans by a b c h k =
    ground (arith, h, k, key_le_trans by a b c, key_le_trans by b c a, key_le_trans by c a b)
