-- ===== src/State.antt =====
-- state/sqlite.py: the state database.
pub mod Tables
pub mod Actions
pub mod Platform
pub mod Statements
pub mod Lookups
pub mod Grants
pub mod Sessions
pub mod Good
pub mod GoodMethods
pub mod Chained
pub mod Authority
pub mod Revoked
pub mod RevokedSteps
pub mod RevokedMethods
pub mod Readers
pub mod Opened
pub mod Opening
pub mod ForGood
pub mod Calls
pub mod Revocation
mod Tests
pub mod AuditTable
pub mod Ends
pub mod AuditKept
pub mod Created
pub mod ChainKept
pub mod Retention
pub mod Rotation
pub mod AuditSteps
