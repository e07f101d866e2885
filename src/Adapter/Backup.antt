-- ===== src/Adapter/Backup.antt =====
-- opensearch-dbaas-adapter/backup/backup.go.
pub mod Curator
pub mod Snapshot
pub mod Restoring
pub mod Renaming
pub mod Verified
pub mod Bounds
pub mod Skipped
pub mod Handlers
pub mod Tracking
pub mod Answers
