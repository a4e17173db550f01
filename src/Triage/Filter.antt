-- ===== src/Triage/Filter.antt =====
-- app/services/operator_triage_queue.py: build_operator_triage_filter, and the bounds of what it builds.
use procore_intake_bridge.Base.{
  ℕ, zero, ◌≤◌, ◌≡◌, String, Option, none, some, min, max, if◌then◌else◌, str_eq, arith,
}
use procore_intake_bridge.Base.Int.{ℤ, pos, negsuc}
use procore_intake_bridge.Exceptions.{Result, returned, raised, Exception, other}
use procore_intake_bridge.Models.Settings.{Settings}
use procore_intake_bridge.Lifecycle.Vocabulary.{status_of}
use procore_intake_bridge.Triage.Vocabulary.{sort_of, bucket_of, tool_of}
use procore_intake_bridge.Triage.Queue.{TriageFilter}

-- `Enum(text) if text else None`, whose outer option is none for a `ValueError`.
abbrev pub given : {A : Type 0} → (String → Option A) → Option String → Option (Option A)
given parse none = some none
given parse (some text) =
    if str_eq text ""
    then some none
    else elim (parse text) [ none ↦ none | some value ↦ some (some value) ]

-- `max(n, 1)`.
abbrev pub at_least_one : ℤ → ℕ
at_least_one (pos n) = max n 1
at_least_one (negsuc n) = 1

-- `page_size or default`.
abbrev pub size_or : Option ℤ → ℕ → ℤ
size_or none default = pos default
size_or (some (pos zero)) default = pos default
size_or (some size) default = size

-- `sort or default`.
abbrev pub sort_or : Option String → String → String
sort_or none default = default
sort_or (some text) default = if str_eq text "" then default else text

abbrev unsupported_filter : Exception
unsupported_filter = other "OperatorTriageQueueError" "Unsupported triage filter."

infixl 40 ◌>>=◌
abbrev ◌>>=◌ : {A B : Type 0} → Option A → (A → Option B) → Option B
none >>= f = none
some a >>= f = f a

unfoldable pub parse_filter :
    Settings
    → Option String
    → Option String
    → Option String
    → ℤ
    → Option ℤ
    → Option String
    → Option TriageFilter
parse_filter settings bucket tool lifecycle_status page page_size sort = do
  b ← given bucket_of bucket
  t ← given tool_of tool
  status ← given status_of lifecycle_status
  by ← sort_of (sort_or sort settings.triage_queue_default_sort)
  some (record {
    bucket = b;
    tool = t;
    lifecycle_status = status;
    page = at_least_one page;
    page_size =
        min (at_least_one (size_or page_size settings.triage_queue_page_size))
          settings.triage_queue_max_page_size;
    sort = by;
  })

unfoldable pub build_operator_triage_filter :
    Settings
    → Option String
    → Option String
    → Option String
    → ℤ
    → Option ℤ
    → Option String
    → Result TriageFilter
unfolding parse_filter
build_operator_triage_filter settings bucket tool lifecycle_status page page_size sort =
    elim (parse_filter settings bucket tool lifecycle_status page page_size sort) [
      | none ↦ raised unsupported_filter
      | some filters ↦ returned filters
    ]

at_least_one_lem : (n : ℤ) → 1 ≤ at_least_one n
at_least_one_lem n = ground arith

-- Whatever page and page size are asked for, a filter that is built has a page of at least 1, and a page
-- size between 1 and the greatest one that the settings allow, if they allow one at all.
pub filter_bounds :
    (settings : Settings) (bucket tool lifecycle_status sort : Option String) (page : ℤ)
    (page_size : Option ℤ) (filters : TriageFilter)
    → 1 ≤ settings.triage_queue_max_page_size
    → build_operator_triage_filter settings bucket tool lifecycle_status page page_size sort
      ≡ returned filters
    → (1 ≤ filters.page)
      × (1 ≤ filters.page_size)
      × (filters.page_size ≤ settings.triage_queue_max_page_size)
unfolding build_operator_triage_filter parse_filter
filter_bounds settings bucket tool lifecycle_status sort page page_size filters allowed h = ground (
  arith,
  h,
  allowed,
  at_least_one_lem page,
  at_least_one_lem (size_or page_size settings.triage_queue_page_size),
)
