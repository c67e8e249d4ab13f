-- ===== src/Namespace.antt =====
-- namespace/planner.py: the deterministic namespace plan of a grant.
pub mod Planner
pub mod Payload
pub mod Plans
pub mod Built
pub mod DoubleSlash
mod Tests
