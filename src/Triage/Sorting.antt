-- ===== src/Triage/Sorting.antt =====
-- app/services/operator_triage_queue.py: the items of the queue and _sort_items.
use Prim.Native.Char.{code}
use procore_intake_bridge.Base.{
  ℕ, ◌-◌, String, Bool, true, false, ◌&&◌, ◌||◌, not, Option, none, some, List, [], ◌∷◌, ltb, leb,
  ◌==◌,
}
use procore_intake_bridge.Base.Int.{ℤ, leb_ℤ}
use procore_intake_bridge.Base.Sort.{sort}
use procore_intake_bridge.Models.{Instant}
use procore_intake_bridge.Lifecycle.Vocabulary.{Status, status_value}
use procore_intake_bridge.Triage.Vocabulary.{Bucket, Tool, Sort, tool_value}
use procore_intake_bridge.Triage.Signals.{Signal}

pub record TriageItem : Type 0 where
  pub record_id : ℕ
  pub tool : Tool
  pub display_number : String
  pub title : String
  pub lifecycle_status : Status
  pub received_at : Option Instant
  pub updated_at : Instant
  pub source_id_masked : Option String
  pub source_id_hash : Option String
  pub attachment_manifest_count : ℕ
  pub signals : List Signal
  pub buckets : List Bucket
  pub priority_score : ℤ

-- The codes of a text, by which Python compares it, and those of `chr(255 - ord(char))`.
unfoldable pub codes : String → List ℕ
codes String.[] = []
codes (String.◌∷◌ c s) = code c ∷ codes s

unfoldable pub complement : List ℕ → List ℕ
complement [] = []
complement (c ∷ cs) = (255 - c) ∷ complement cs

unfoldable pub leb_codes : List ℕ → List ℕ → Bool
leb_codes [] ds = true
leb_codes (c ∷ cs) [] = false
leb_codes (c ∷ cs) (d ∷ ds) = ltb c d || (c == d && leb_codes cs ds)

-- 1970-01-01, in microseconds since the least `datetime`.
abbrev pub epoch : Instant
epoch = 62_135_596_800_000_000

abbrev pub received_or_epoch : Option Instant → Instant
received_or_epoch none = epoch
received_or_epoch (some received) = received

-- The comparison of the first components of the keys; a negated number compares the other way round.
unfoldable pub key_le : Sort → TriageItem → TriageItem → Bool
unfolding codes complement leb_codes
key_le Sort.priority_desc a b = leb_ℤ b.priority_score a.priority_score
key_le Sort.priority_asc a b = leb_ℤ a.priority_score b.priority_score
key_le Sort.received_at_desc a b =
    leb (received_or_epoch b.received_at) (received_or_epoch a.received_at)
key_le Sort.received_at_asc a b =
    leb (received_or_epoch a.received_at) (received_or_epoch b.received_at)
key_le Sort.lifecycle_status_asc a b =
    leb_codes (codes (status_value a.lifecycle_status)) (codes (status_value b.lifecycle_status))
key_le Sort.lifecycle_status_desc a b =
    leb_codes (complement (codes (status_value a.lifecycle_status)))
      (complement (codes (status_value b.lifecycle_status)))
key_le Sort.tool_asc a b = leb_codes (codes (tool_value a.tool)) (codes (tool_value b.tool))
key_le Sort.tool_desc a b =
    leb_codes (complement (codes (tool_value a.tool))) (complement (codes (tool_value b.tool)))

-- The order of the pairs of a key and a record's id.
unfoldable pub is_before : Sort → TriageItem → TriageItem → Bool
is_before by a b = key_le by a b && (not (key_le by b a) || leb a.record_id b.record_id)

unfoldable pub sort_items : Sort → List TriageItem → List TriageItem
unfolding is_before
sort_items by items = sort (is_before by) items
