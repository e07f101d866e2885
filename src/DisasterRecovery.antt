-- ===== src/DisasterRecovery.antt =====
-- The disaster recovery of the operator: the package disasterrecovery and, of the package
-- controllers, the watcher and the reconciler.
pub mod Checker
pub mod Verdict
pub mod Health
pub mod Endpoint
pub mod Process
pub mod Restart
pub mod Switchover
pub mod Recovery
pub mod Resource
pub mod Configure
pub mod Watcher
