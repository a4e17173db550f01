-- ===== src/EventQueue.antt =====
-- The webhook event queue (app/services/event_queue.py). Selection, mapping, locks and the marks of a
-- row are in `EventQueue.Events`, the processing of one event in `EventQueue.Process`, a round over
-- the queue in `EventQueue.Round`, and the insertion of an event in `EventQueue.Enqueue`.
pub mod Events
pub mod Process
pub mod Settled
pub mod Shape
pub mod Outcome
pub mod DryRun
pub mod Frame
pub mod Round
pub mod Enqueue
pub mod Duplicates
pub mod Selection
pub mod Mapping
pub mod Listing
mod Tests
