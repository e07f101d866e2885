-- ===== src/Witnesses.antt =====
-- Concrete worlds, and runs of the code in them.
mod Worlds
mod SlowLog
mod Registration
mod Opensearch
mod Controller
mod Databases
mod Background
mod Deletion
mod Replication
mod DisasterRecovery
mod Configure
mod Adapter
mod Backup
