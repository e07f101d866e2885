-- ===== src/Replication.antt =====
-- controllers/replication_manager.go. The operations are in the children Stats, Manager, Check and
-- Indices, which are used by their own names.
pub mod Stats
pub mod Manager
pub mod Check
pub mod Indices
pub mod Stopping
pub mod Deletion
pub mod Rule
pub mod Progress
