-- ===== src/EventQueue/Duplicates.antt =====
-- A delivery that was stored once is not stored again.
use procore_intake_bridge.Database.{Database}
