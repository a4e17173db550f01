-- ===== src/Sync.antt =====
-- The intake sync (app/services/intake_sync.py): the items of the fixtures that a connection may read are
-- stored as intake records with their attachments.
pub mod Source
pub mod Store
pub mod Rows
pub mod Run
pub mod Refinement
pub mod Connection
pub mod Frame
pub mod Interface
pub mod Contents
pub mod Permitted
pub mod Total
mod Tests
