-- ===== src/Lifecycle.antt =====
-- The local review of intake records (app/services/intake_lifecycle.py): the statuses and reasons, the
-- texts, the reading of a state, a transition with its audit event, the history and the summary.
pub mod Vocabulary
pub mod Texts
pub mod Views
pub mod States
pub mod Transition
pub mod Report
pub mod Summary
pub mod Outcome
pub mod Recorded
pub mod Started
pub mod Audit
pub mod Canonical
mod Tests
