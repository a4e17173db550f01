-- ===== src/Triage/Pages.antt =====
-- The pages of the triage queue, put together, are the records that the filters let through, in order.
use procore_intake_bridge.Triage.Sorting.{TriageItem, sort_items}
use procore_intake_bridge.Base.{
  ℕ, ◌≤◌, ◌≡◌, ◌∙◌, ap, Bool, true, false, ◌&&◌, not, List, [], length, suc,
}
use procore_intake_bridge.Base.Pages.{pages_upto, pages_upto_eq, pages_upto_all, ceil_enough}
use procore_intake_bridge.Base.Sort.{IsSorted, sort-perm, sort-IsSorted}
use mathlib.Core.List.{Perm}
use procore_intake_bridge.Models.{Instant}
use procore_intake_bridge.Models.Settings.{Settings}
use procore_intake_bridge.Exceptions.{Result, returned, raised}
use procore_intake_bridge.Database.{Tables}
use procore_intake_bridge.Lifecycle.Texts.{Patterns, is_unsafe_response}
use procore_intake_bridge.Lifecycle.Report.{page_count}
use procore_intake_bridge.Triage.Vocabulary.{Sort}
use procore_intake_bridge.Triage.Order.{is_before_total, is_before_trans}
use procore_intake_bridge.Triage.Queue.{
  TriagePage, TriageFilter, page_items, filter_items, queue_page, checked_page, build_items,
  list_operator_triage_queue, safe_configuration,
}
use procore_intake_bridge.Triage.Sorting.{is_before}

abbrev pub at_page : TriageFilter → ℕ → TriageFilter
at_page filters page = record filters { page = page }

abbrev pub items_of : Result TriagePage → List TriageItem
items_of (returned page) = page.items
items_of (raised e) = []

sort_items-IsSorted :
    (by : Sort) (items : List TriageItem) → IsSorted (is_before by) (sort_items by items)
unfolding sort_items
sort_items-IsSorted by items =
    sort-IsSorted (is_before by) (is_before_total by) (is_before_trans by) items

sort_items-perm : (by : Sort) (items : List TriageItem) → Perm (sort_items by items) items
unfolding sort_items
sort_items-perm by items = sort-perm (is_before by) items

-- The pages of a queue of items.
queue_pages :
    (filters : TriageFilter) (items : List TriageItem)
    → 1 ≤ filters.page_size
    → pages_upto
        (λ page. (queue_page (at_page filters page) items).items)
        (queue_page filters items).total_pages
      ≡ sort_items filters.sort (filter_items filters items)
unfolding queue_page page_items page_count
queue_pages filters items positive =
    pages_upto_all filters.page_size (sort_items filters.sort (filter_items filters items)) _ (
      ceil_enough (length (sort_items filters.sort (filter_items filters items))) filters.page_size
        positive)

module _ (patterns : Patterns) (settings : Settings) (has_states : Bool) (t : Tables)
    (now : Instant) where
  list_available :
      (filters : TriageFilter) (items : List TriageItem)
      → settings.triage_queue_enabled ≡ true
      → (settings.triage_queue_fail_closed && not (safe_configuration settings)) ≡ false
      → build_items patterns settings has_states t now ≡ returned items
      → is_unsafe_response patterns TriagePage (queue_page filters items) ≡ false
      → list_operator_triage_queue patterns settings true has_states filters t now
        ≡ returned (queue_page filters items)
  unfolding list_operator_triage_queue checked_page
  list_available filters items enabled configured built safe =
      simp (enabled, configured, built, safe)

  -- The items that are listed on a page, none where listing raises.
  abbrev pub listed : TriageFilter → ℕ → List TriageItem
  listed filters page =
      items_of
        (list_operator_triage_queue patterns settings true has_states (at_page filters page) t now)

  module _ (filters : TriageFilter) (items : List TriageItem) (positive : 1 ≤ filters.page_size)
      (enabled : settings.triage_queue_enabled ≡ true)
      (configured : (settings.triage_queue_fail_closed && not (safe_configuration settings))
        ≡ false)
      (built : build_items patterns settings has_states t now ≡ returned items)
      (safe : (page : ℕ)
        → is_unsafe_response patterns TriagePage (queue_page (at_page filters page) items)
          ≡ false) where
    listed_pages :
        pages_upto (listed filters) (queue_page filters items).total_pages
        ≡ sort_items filters.sort (filter_items filters items)
    listed_pages =
        pages_upto_eq (listed filters) (λ page. (queue_page (at_page filters page) items).items)
          (λ n. ap items_of (
            list_available (at_page filters (suc n)) items enabled configured built (safe (suc n))))
          (queue_page filters items).total_pages
        ∙ queue_pages filters items positive

    -- Where the queue is enabled and safely configured, its items are built and no page is blocked as
    -- unsafe: the items of the pages from 1 to the number of pages, one page after the other, are
    -- those that the filters let through, each as often, in the order of the sort that is asked for.
    pub listed-pages :
        let all_pages = pages_upto (listed filters) (queue_page filters items).total_pages in
        Perm all_pages (filter_items filters items) × IsSorted (is_before filters.sort) all_pages
    listed-pages = rw listed_pages (
      sort_items-perm filters.sort (filter_items filters items),
      sort_items-IsSorted filters.sort (filter_items filters items),
    )
