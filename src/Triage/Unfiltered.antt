-- ===== src/Triage/Unfiltered.antt =====
-- The page of app/services/operator_triage_queue.py that no filter narrows, as the summary reads it.
use procore_intake_bridge.Base.Sort.{length-sort}
use procore_intake_bridge.Triage.Sorting.{TriageItem, sort_items}
use procore_intake_bridge.Base.Int.{ℤ, pos}
use procore_intake_bridge.Triage.Filter.{build_operator_triage_filter, parse_filter, sort_or}
use procore_intake_bridge.Base.{
  ◌≡◌, Bool, List, [], ◌∷◌, length, inl, inr, subst, none, ap, select, true, refl, ◌∙◌, Option,
  String, Option-cases,
}
use procore_intake_bridge.Exceptions.{returned, raised-ne-returned, returned-injective}
use procore_intake_bridge.Models.Settings.{Settings}
use procore_intake_bridge.Triage.Vocabulary.{sort_of}
use procore_intake_bridge.Triage.Queue.{
  of_status, queue_page, filter_items, TriageFilter, in_bucket, listing_status, of_tool,
}

select_all :
    (p : TriageItem → Bool) (items : List TriageItem)
    → ((item : TriageItem) → p item ≡ true)
    → select p items ≡ items
unfolding select
select_all p [] h = refl
select_all p (x ∷ items) h = rw (h x, select) (ap (λ xs. x ∷ xs) (select_all p items h))

-- A filter that lets all items through.
pub record IsUnfiltered (filters : TriageFilter) : Type 0 where
  pub no_bucket : filters.bucket ≡ none
  pub no_tool : filters.tool ≡ none
  pub no_status : filters.lifecycle_status ≡ none

filter_items-IsUnfiltered :
    (filters : TriageFilter) (items : List TriageItem)
    → IsUnfiltered filters
    → filter_items filters items ≡ items
unfolding filter_items
filter_items-IsUnfiltered filters items unfiltered =
    select_all (of_status filters.lifecycle_status) _ (λ item. simp unfiltered.no_status refl)
    ∙ select_all (of_tool filters.tool) _ (λ item. simp unfiltered.no_tool refl)
    ∙ select_all (in_bucket filters.bucket) items (λ item. simp unfiltered.no_bucket refl)

pub queue_page-status :
    (filters : TriageFilter) (items : List TriageItem)
    → IsUnfiltered filters
    → (queue_page filters items).status ≡ listing_status (length items)
unfolding queue_page sort_items
queue_page-status filters items unfiltered =
    ap listing_status
      (length-sort _ _ ∙ ap length (filter_items-IsUnfiltered filters items unfiltered))

-- The filter of the summary names no bucket, tool or status.
pub summary_filter :
    (settings : Settings) (sort : Option String) (page_size : Option ℤ) (filters : TriageFilter)
    → build_operator_triage_filter settings none none none (pos 1) page_size sort ≡ returned filters
    → IsUnfiltered filters
unfolding build_operator_triage_filter parse_filter
summary_filter settings sort page_size filters h =
    elim (Option-cases (sort_of (sort_or sort settings.triage_queue_default_sort))) [
      | inl unsupported ↦
          absurd
            (raised-ne-returned (rw (unsupported, build_operator_triage_filter, parse_filter) at h))
      | inr (by, supported) ↦
          subst IsUnfiltered
            (returned-injective (rw (supported, build_operator_triage_filter, parse_filter) at h))
            (record { no_bucket = refl; no_tool = refl; no_status = refl })
    ]
