-- ===== src/Triage/Items.antt =====
-- The items of the triage queue are the intake records, one for each.
use procore_intake_bridge.Triage.Sorting.{TriageItem}
use procore_intake_bridge.Triage.Vocabulary.{Bucket, Tool, same_bucket, missing_source_context}
use procore_intake_bridge.Base.{
  ◌≡◌, ◌∙◌, ap, Bool, true, false, List, [], ◌∷◌, ◌++◌, map, Bool-cases, inl, inr, if◌then◌else◌,
  arith, sym, String, Option, ◌&&◌, some, str_eq, ◌||◌, subst, refl, eq_iff,
}
use procore_intake_bridge.Models.{Instant, IntakeRecord, IntakeReviewState}
use procore_intake_bridge.Models.Settings.{Settings}
use procore_intake_bridge.Exceptions.{
  returned, raised-ne-returned, returned-injective, Result-cases,
}
use procore_intake_bridge.Database.{Tables}
use procore_intake_bridge.Lifecycle.Texts.{Patterns, is_unsafe_response}
use procore_intake_bridge.Triage.Context.{
  build_intake_review_source_context, SourceContext, AttachmentSummary, classify_intake_review_tool,
  build_intake_review_attachment_summary,
}
use procore_intake_bridge.Triage.Signals.{
  Signal, has_code, has_context, compute_triage_signals, other_signals, buckets_among, if_signal,
  context_signal, is_recent, assign_triage_buckets, is_older, bucket_codes,
}
use procore_intake_bridge.Triage.Queue.{build_item, build_each, build_items, is_in, in_bucket}

module _ (patterns : Patterns) (settings : Settings) (t : Tables) (now : Instant) where
  build_each_lem :
      (states : List IntakeReviewState) (records : List IntakeRecord) (items : List TriageItem)
      → build_each patterns settings states t now records ≡ returned items
      → items ≡ map (build_item patterns settings states t now) records
  unfolding build_each
  build_each_lem states [] items h = sym (returned-injective h)
  build_each_lem states (r ∷ records) items h =
      elim (Bool-cases
        (is_unsafe_response patterns TriageItem (build_item patterns settings states t now r))) [
          | inl blocked ↦ absurd (raised-ne-returned (rw blocked at h))
          | inr safe ↦ elim (Result-cases (build_each patterns settings states t now records)) [
            | inr (e, failed) ↦ absurd (raised-ne-returned (rw (safe, failed, build_each) at h))
            | inl (rest, built) ↦
                sym (returned-injective (rw (safe, built, build_each) at h))
                ∙ ap (λ items. build_item patterns settings states t now r ∷ items)
                    (build_each_lem states records rest built)
          ]
        ]

  -- Where the items are built, they are those of the intake records, one for each, in the order of the
  -- records; without a table of states each record counts as new.
  pub build_items_lem :
      (has_states : Bool) (items : List TriageItem)
      → build_items patterns settings has_states t now ≡ returned items
      → items
        ≡ map
            (build_item patterns settings (if has_states then t.review_states else []) t now)
            t.intake_records
  unfolding build_items
  build_items_lem has_states items h = build_each_lem _ t.intake_records items h

  unhashed-has_context :
      (r : IntakeRecord)
      → settings.intake_review_workspace_hash_source_ids ≡ false
      → has_context (build_intake_review_source_context patterns r settings t) ≡ false
  unfolding build_intake_review_source_context
  unhashed-has_context r off = ground (arith, off)

  missing_first :
      (source : Option SourceContext) (rest : List Signal)
      → has_context source ≡ false
      → settings.triage_queue_include_source_context_signals ≡ true
      → has_code "source_context_missing" (
          if_signal settings.triage_queue_include_source_context_signals
            (context_signal (has_context source))
          ++ rest)
        ≡ true
  unfolding has_code
  missing_first source rest unseen included = simp (included, unseen)

  skip_signal :
      (flag : Bool) (first : Signal) (rest : List Signal)
      → has_code "source_context_missing" rest ≡ true
      → has_code "source_context_missing" (if_signal flag first ++ rest) ≡ true
  unfolding has_code
  skip_signal true first rest h = ground (arith, h)
  skip_signal false first rest h = h

  others-missing :
      (received : Option Instant) (tool : Tool) (unreviewed : Bool)
      (attachments : Option AttachmentSummary) (source : Option SourceContext)
      → has_context source ≡ false
      → settings.triage_queue_include_source_context_signals ≡ true
      → has_code "source_context_missing"
          (other_signals received tool unreviewed attachments source settings now)
        ≡ true
  unfolding other_signals
  others-missing received tool unreviewed attachments source unseen included =
      skip_signal (is_recent received settings.triage_queue_recent_hours now) _ _ (
        skip_signal (unreviewed && is_older received settings.triage_queue_older_than_hours now) _ _
          (skip_signal settings.triage_queue_include_attachment_signals _ _
            (missing_first source _ unseen included)))

  unhashed-has_code :
      (r : IntakeRecord) (states : List IntakeReviewState)
      → settings.intake_review_workspace_hash_source_ids ≡ false
      → settings.triage_queue_include_source_context_signals ≡ true
      → has_code "source_context_missing" (build_item patterns settings states t now r).signals
        ≡ true
  unfolding build_item compute_triage_signals
  unhashed-has_code r states off included =
      skip_signal settings.triage_queue_include_lifecycle _ _ (
        others-missing r.received_at (classify_intake_review_tool r.source_type) _
          (build_intake_review_attachment_summary r settings t)
          (build_intake_review_source_context patterns r settings t) (unhashed-has_context r off)
          included)

  -- Whether a mapping has a bucket for a code.
  unfoldable maps : String → Bucket → List (String × Bucket) → Bool
  maps code bucket [] = false
  maps code bucket ((c, b) ∷ mapping) =
      (str_eq code c && same_bucket bucket b) || maps code bucket mapping

  is_in-code :
      (code : String) (bucket : Bucket) (signals : List Signal) (mapping : List (String × Bucket))
      → has_code code signals ≡ true
      → maps code bucket mapping ≡ true
      → is_in bucket (buckets_among signals mapping) ≡ true
  unfolding is_in buckets_among maps
  is_in-code code bucket signals [] found mapped = cc
  is_in-code code bucket signals ((c, b) ∷ mapping) found mapped =
      elim (Bool-cases (str_eq code c)) [
        | inl own ↦
            let here = subst (λ c. has_code c signals ≡ true) ((eq_iff code c).0 own) found in
            ground (arith, mapped, own, here, is_in-code code bucket signals mapping found)
        | inr not_own ↦
            ground (arith, mapped, not_own, is_in-code code bucket signals mapping found)
      ]

  maps-missing : maps "source_context_missing" missing_source_context bucket_codes ≡ true
  unfolding maps same_bucket
  maps-missing = refl

  -- Where the review workspace does not hash identifiers and the triage includes the signals of the
  -- source context, every record is put among those that miss their source context, also one that has it.
  pub unhashed-missing_source_context :
      (r : IntakeRecord) (states : List IntakeReviewState)
      → settings.intake_review_workspace_hash_source_ids ≡ false
      → settings.triage_queue_include_source_context_signals ≡ true
      → in_bucket (some missing_source_context) (build_item patterns settings states t now r) ≡ true
  unfolding build_item assign_triage_buckets
  unhashed-missing_source_context r states off included =
      is_in-code "source_context_missing" missing_source_context
        (build_item patterns settings states t now r).signals bucket_codes
        (unhashed-has_code r states off included) maps-missing
