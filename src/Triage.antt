-- ===== src/Triage.antt =====
-- The operator triage queue (app/services/operator_triage_queue.py): the signals of a record, its score
-- and buckets, the sorted and paged queue and the summary, which only read the tables.
pub mod Vocabulary
pub mod Context
pub mod Signals
pub mod Score
pub mod Sorting
pub mod Queue
pub mod Order
pub mod Pages
pub mod Filter
pub mod Summary
pub mod Unfiltered
pub mod Counts
pub mod Items
mod Tests
