-- ===== src/Adapter.antt =====
-- The DBaaS adapter, the program in opensearch-dbaas-adapter.
pub mod Background
pub mod Transport
pub mod Users
pub mod Recovery
pub mod Resources
pub mod Deletion
pub mod Roles
pub mod RoleMapping
pub mod Backup
pub mod Trace
pub mod Startup
pub mod Health
pub mod Accounts
pub mod Metadata
pub mod Databases
pub mod Registration
