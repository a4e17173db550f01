-- ===== src/Triage/Counts.antt =====
-- What the triage summary counts.
use procore_intake_bridge.Triage.Items.{build_items_lem}
use procore_intake_bridge.Triage.Signals.{state_status}
use procore_intake_bridge.Lifecycle.Vocabulary.{Status}
use procore_intake_bridge.Triage.Sorting.{TriageItem}
use procore_intake_bridge.Base.Int.{pos}
use procore_intake_bridge.Triage.Filter.{build_operator_triage_filter}
use procore_intake_bridge.Base.{
  ℕ, ◌≡◌, Bool, List, [], ◌∷◌, length, count, arith, map, Bool-cases, inl, inr, subst, none, some,
  ap, suc, if◌then◌else◌, true, ◌+◌, refl, ◌∙◌, ◌&&◌, not, false, sym,
}
use procore_intake_bridge.Lifecycle.Report.{same_status, sum_counts}
use procore_intake_bridge.Exceptions.{
  returned, raised, raised-ne-returned, returned-injective, Result-cases,
}
use procore_intake_bridge.Lifecycle.Texts.{Patterns, is_unsafe_response}
use procore_intake_bridge.Models.{Instant, IntakeRecord, IntakeReviewState}
use procore_intake_bridge.Models.Settings.{Settings}
use procore_intake_bridge.Database.{Tables}
use procore_intake_bridge.Triage.Vocabulary.{Bucket}
use procore_intake_bridge.Triage.Queue.{
  TriagePage, build_items, build_item, queue_page, is_in, state_of, TriageFilter, in_bucket,
  listing_status, checked_page, list_operator_triage_queue, safe_configuration,
}
use procore_intake_bridge.Triage.Summary.{
  TriageSummary, items_summary, item_has_status, bucket_count, all_buckets, checked_summary,
  summary_of_status, summary_of_page, build_operator_triage_summary,
}
use procore_intake_bridge.Triage.Unfiltered.{IsUnfiltered, queue_page-status, summary_filter}

sum_statuses :
    (items : List TriageItem)
    → sum_counts (λ status. count (item_has_status status) items) ≡ length items
unfolding count same_status
sum_statuses [] = omega arith
sum_statuses (x ∷ items) = ground (arith, sum_statuses items)

length-map_native {ℓ κ} :
    {A : Type ℓ} {B : Type κ} → (f : A → B) (xs : List A) → length (map f xs) ≡ length xs
length-map_native f [] = refl
length-map_native f (x ∷ xs) = ap suc (length-map_native f xs)

count-map {ℓ κ} :
    {A : Type ℓ} {B : Type κ}
    → (p : B → Bool) (f : A → B) (xs : List A) → count p (map f xs) ≡ count (λ x. p (f x)) xs
unfolding count
count-map p f [] = refl
count-map p f (x ∷ xs) = ap (λ n. (if p (f x) then 1 else 0) + n) (count-map p f xs)

map-bucket_count :
    (f : IntakeRecord → TriageItem) (rs : List IntakeRecord) (buckets : List Bucket)
    → map {B = Bucket × ℕ} (λ b. (b, bucket_count (map f rs) b)) buckets
      ≡ map {B = Bucket × ℕ} (λ b. (b, count (λ r. is_in b (f r).buckets) rs)) buckets
map-bucket_count f rs [] = refl
map-bucket_count f rs (b ∷ buckets) =
    cc (count-map (in_bucket (some b)) f rs, map-bucket_count f rs buckets)

module _ (patterns : Patterns) (settings : Settings) (has_states : Bool) (t : Tables)
    (now : Instant) where
  abbrev pub read_states : List IntakeReviewState
  read_states = if has_states then t.review_states else []

  -- The status of a record by its own state: new where it has none.
  abbrev pub record_status : IntakeRecord → Status
  record_status r = state_status (state_of r.id read_states)

  abbrev pub record_in_bucket : Bucket → IntakeRecord → Bool
  record_in_bucket bucket r =
      is_in bucket (build_item patterns settings read_states t now r).buckets

  -- The summary counts the intake records of the table.
  pub record IsSummaryOf (summary : TriageSummary) : Type 0 where
    pub total : summary.total_records ≡ length t.intake_records
    pub by_status :
        (status : Status)
        → summary.lifecycle_distribution status
          ≡ count (λ r. same_status (record_status r) status) t.intake_records
    pub adds_up : sum_counts summary.lifecycle_distribution ≡ summary.total_records
    pub by_bucket :
        summary.buckets
        ≡ map {B = Bucket × ℕ}
            (λ bucket. (bucket, count (record_in_bucket bucket) t.intake_records))
            all_buckets

  items_summary-IsSummaryOf :
      IsSummaryOf
        (items_summary (map (build_item patterns settings read_states t now) t.intake_records))
  unfolding items_summary build_item
  items_summary-IsSummaryOf =
      let build = build_item patterns settings read_states t now in
      record {
        total = length-map_native build t.intake_records;
        by_status = λ status. count-map (item_has_status status) build t.intake_records;
        adds_up = sum_statuses (map build t.intake_records);
        by_bucket = map-bucket_count build t.intake_records all_buckets;
      }

  checked_summary_lem :
      (items : List TriageItem) (summary : TriageSummary)
      → checked_summary patterns settings (returned items) ≡ returned summary
      → items_summary items ≡ summary
  unfolding checked_summary
  checked_summary_lem items summary h =
      elim (Bool-cases (is_unsafe_response patterns TriageSummary (items_summary items))) [
        | inl blocked ↦ absurd (raised-ne-returned (rw blocked at h))
        | inr safe ↦ returned-injective (rw safe at h)
      ]

  -- What follows on a page of all items: the summary of these.
  page_status_lem :
      (filters : TriageFilter) (items : List TriageItem) (summary : TriageSummary)
      → build_items patterns settings has_states t now ≡ returned items
      → summary_of_status patterns settings has_states t now (listing_status (length items))
        ≡ returned summary
      → checked_summary patterns settings (returned items) ≡ returned summary
  unfolding summary_of_status
  page_status_lem filters [] summary built h = h
  page_status_lem filters (x ∷ items) summary built h = rw built at h

  queue_summary_lem :
      (filters : TriageFilter) (items : List TriageItem) (summary : TriageSummary)
      → IsUnfiltered filters
      → build_items patterns settings has_states t now ≡ returned items
      → summary_of_page patterns settings has_states t now
          (checked_page patterns settings (queue_page filters items))
        ≡ returned summary
      → items_summary items ≡ summary
  unfolding summary_of_page checked_page
  queue_summary_lem filters items summary unfiltered built h =
      elim (Bool-cases (is_unsafe_response patterns TriagePage (queue_page filters items))) [
        | inl blocked ↦ absurd (raised-ne-returned (rw blocked at h))
        | inr safe ↦ checked_summary_lem items summary (
            page_status_lem filters items summary built (
              subst
                (λ status.
                  summary_of_status patterns settings has_states t now status ≡ returned summary)
                (queue_page-status filters items unfiltered) (rw safe at h)))
      ]

  listing_lem :
      (filters : TriageFilter)
      → settings.triage_queue_enabled ≡ true
      → (settings.triage_queue_fail_closed && not (safe_configuration settings)) ≡ false
      → list_operator_triage_queue patterns settings true has_states filters t now
        ≡ elim (build_items patterns settings has_states t now) [
          | raised e ↦ raised e
          | returned items ↦ checked_page patterns settings (queue_page filters items)
        ]
  unfolding list_operator_triage_queue
  listing_lem filters enabled configured = ground (arith, enabled, configured)

  listing_summary_lem :
      (filters : TriageFilter) (summary : TriageSummary)
      → IsUnfiltered filters
      → settings.triage_queue_enabled ≡ true
      → (settings.triage_queue_fail_closed && not (safe_configuration settings)) ≡ false
      → summary_of_page patterns settings has_states t now
          (list_operator_triage_queue patterns settings true has_states filters t now)
        ≡ returned summary
      → IsSummaryOf summary
  unfolding summary_of_page
  listing_summary_lem filters summary unfiltered enabled configured h =
      elim (Result-cases (build_items patterns settings has_states t now)) [
        | inr (e, failed) ↦
            absurd (raised-ne-returned (rw (listing_lem filters enabled configured, failed) at h))
        | inl (items, built) ↦
            subst IsSummaryOf
              (ap items_summary
                  (sym (build_items_lem patterns settings t now has_states items built))
                ∙ queue_summary_lem filters items summary unfiltered built
                    (rw (listing_lem filters enabled configured, built) at h))
              items_summary-IsSummaryOf
      ]

  -- A summary that is returned where the queue is enabled, its settings are safe and the table of records
  -- is there counts the records of the table: all of them in the total, each under the status that its
  -- own state has, so that these counts add up to the total, and each in every bucket that it is in.
  pub summary-IsSummaryOf :
      (summary : TriageSummary)
      → settings.triage_queue_enabled ≡ true
      → (settings.triage_queue_fail_closed && not (safe_configuration settings)) ≡ false
      → build_operator_triage_summary patterns settings true has_states t now ≡ returned summary
      → IsSummaryOf summary
  unfolding build_operator_triage_summary
  summary-IsSummaryOf summary enabled configured h =
      elim (Result-cases (
        build_operator_triage_filter settings none none none (pos 1)
          (some (pos settings.triage_queue_max_page_size)) none)) [
            | inr (e, unsupported) ↦
                absurd (raised-ne-returned (rw (unsupported, build_operator_triage_summary) at h))
            | inl (filters, built) ↦
                listing_summary_lem filters summary (summary_filter settings none _ filters built)
                  enabled configured (rw (built, build_operator_triage_summary) at h)
          ]
