-- ===== src/Memory.antt =====
-- A session that holds its tables and those of the last commit: it meets the hypotheses on sessions,
-- and the tests run on it.
use procore_intake_bridge.Base.{refl, []}
use procore_intake_bridge.Database.{Tables, Database}

pub record MemorySession : Type 0 where
  pub current : Tables
  pub stored : Tables

abbrev pub memory : Database
memory = record {
  Session = MemorySession;
  tables = λ s. s.current;
  write = λ t s. record s { current = t };
  commit = λ s. record s { stored = s.current };
  rollback = λ s. record s { current = s.stored };
  tables-write = λ t s. refl;
  tables-commit = λ s. refl;
  rollback-write = λ t s. refl;
  rollback-commit = λ s. refl;
  rollback-rollback = λ s. refl;
}

abbrev pub no_rows : Tables
no_rows = record {
  connections = [];
  sync_profiles = [];
  webhook_events = [];
  intake_records = [];
  sync_runs = [];
  review_states = [];
  lifecycle_events = [];
  intake_attachments = [];
  attachment_objects = [];
}

-- A session on committed tables.
abbrev pub opened : Tables → MemorySession
opened t = record { current = t; stored = t }
