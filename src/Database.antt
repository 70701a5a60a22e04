-- ===== src/Database.antt =====
-- db/src: the schema, transactions under row-level security, and the lookups of client.ts.
pub mod Enums
pub mod Rows
pub mod Tx
pub mod Statements
pub mod Order
pub mod Client
pub mod Keeps
pub mod Isolation
pub mod Limit
pub mod Purge
pub mod EvalExport
pub mod Migrate
pub mod Settings
pub mod Snapshot
pub mod Seed
