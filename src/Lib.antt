-- ===== src/Lib.antt =====
-- Verification of procore-intake-bridge: the reception of webhooks, the
-- event queue, the polling worker, the intake sync, the review of intake records and the triage queue.
--
-- The bridge copies RFIs and submittals into local tables. Sync profiles say what to copy and when; the
-- polling worker (app/services/polling_worker.py) runs the profiles that are due, and the event queue
-- (app/services/event_queue.py) runs the profile that a stored webhook event maps to. Both lock the row
-- that they work on, book the result of the attempt in the row, and unlock it. Operators review the
-- copied records: app/services/intake_lifecycle.py keeps a status for each and an audit trail of moves, and
-- app/services/operator_triage_queue.py lists them by priority. app/routers/webhooks.py checks the signature
-- of a delivery, normalizes it and stores it as an event of the queue.
--
-- Files and code:
-- - Models, Models/Settings: the rows of app/models and the settings of app/config.py.
-- - Exceptions: the error classes of the services, and results of calls that may raise.
-- - Database, Database/Writes: a SQLAlchemy session, and reads and writes of rows through it.
-- - Polling/Profiles: calculate_next_run_at, find_due_sync_profiles, the lock, record_sync_success,
--   record_sync_failure. Polling/Run: run_sync_profile_once. Polling/Round: run_due_profiles_once.
-- - EventQueue/Events: find_queued_events, _find_mapping, the lock, the marks, replay_webhook_event.
--   EventQueue/Listing: list_webhook_events.
--   EventQueue/Enqueue: enqueue_webhook_event. EventQueue/Process: process_webhook_event_once.
--   EventQueue/Round: run_event_queue_once.
-- - Lifecycle/Vocabulary: statuses, reasons, ALLOWED_TRANSITIONS, normalize_lifecycle_status.
--   Lifecycle/Texts: sanitize_lifecycle_value, the mask and the hash of an actor. Lifecycle/Views:
--   _state_view, _event_item. Lifecycle/States: get_or_create_lifecycle_state and the repair of legacy
--   rows. Lifecycle/Transition: apply_lifecycle_transition. Lifecycle/Report: history and summary.
-- - Webhook/Payload: sanitize_payload and the searches of app/services/webhook_normalizer.py.
--   Webhook/Normalizer: normalize_procore_webhook_event. Webhook/Signature:
--   app/security/webhook_signature.py. Webhook/Receive: app/routers/webhooks.py.
-- - Triage/Context: what app/services/operator_triage_queue.py reads of the review workspace
--   (app/services/intake_review_workspace.py). Triage/Signals: compute_triage_signals, the score and the
--   buckets. Triage/Sorting: _sort_items. Triage/Queue: _build_items, list_operator_triage_queue.
--   Triage/Filter: build_operator_triage_filter. Triage/Summary: build_operator_triage_summary.
-- - Sync/Source: collect_fixture_records of app/services/intake_sync.py and the reading of the fixtures in
--   app/services/procore_client.py. Sync/Store, Sync/Rows, Sync/Run: the storing of records and
--   of attachments, with create_attachment_manifest_record. Sync/Connection: sync_connection.
-- - Text: the methods of Python's texts that the services use.
-- - Base: lists, tables of rows by a numeric key, sorting and Boolean tests. Json: the JSON values.
-- - Memory, Samples and the modules Tests: a session in memory, sample rows, and the theorems at them.
--
-- State and exceptions: an operation takes the session and gives its result, `returned` or `raised`, with
-- the session after it; a `try` is a match on the result of its body. A session is a parameter
-- (`Database`): SQLAlchemy is not part of the repository. Its laws say that a session reads its own
-- writes, that `commit` keeps them and that `rollback` goes back to the last commit. What the worker asks
-- of app/services/intake_sync.py is the record `IntakeSync`: a sync called with commit=False writes
-- neither profiles nor events and commits nothing, and writes nothing on a dry run; it may raise. Sync
-- implements it (`fixture_intake`), with the files and dates of the fixtures as the record `Fixtures`, the
-- plans of app/services/attachment_storage.py as `Storage`, and the keys of new rows as `Keys`. The
-- regular expressions, SHA-256 and json.dumps of the lifecycle and the triage are the record `Patterns`;
-- `str` of a container, json.dumps and SHA-256 of the normalizer are `Encodings`; HMAC and the resolution of
-- secrets are `Verifier`, and reading a body as JSON is a function. Texts are stripped of Python's
-- white space, and folded as ASCII. Every commit is assumed to succeed.
--
-- Instants are microseconds in UTC counted from the least datetime, so that `_as_utc` has nothing to do; a
-- comparison with `now - timedelta(...)` is written with the duration added on the other side. The clock
-- that a function reads is an argument. There is no fuel: every loop goes over a list of rows.
--
-- Not modelled: the other HTTP routers, configuration checks, documentation and readiness reports, live
-- access to Procore, the files of attachments, secrets, templates and scripts; of the rows, the audit columns that nothing reads.
pub mod Base
pub mod Text
pub mod Json
pub mod Models
pub mod Exceptions
pub mod Database
pub mod Memory
pub mod Polling
pub mod Lifecycle
pub mod Webhook
pub mod EventQueue
pub mod Triage
pub mod Sync
pub mod Samples
