-- ===== src/Homed.antt =====
-- homed/core.py and homed/mediation.py: the tables of a projected home, and decisions on unknown paths.
pub mod Core
pub mod Leases
pub mod Empty
pub mod Pending
pub mod Mediator
pub mod Mediation
pub mod Admission
pub mod Approvals
pub mod Approved
pub mod Bounded
pub mod Bounds
pub mod Settled
pub mod Final
mod Tests
mod CoreTests
