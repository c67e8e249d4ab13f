-- ===== src/Broker.antt =====
-- broker/registry.py: the broker's workers.
pub mod Registry
pub mod Terminated
pub mod Owned
pub mod Expiry
pub mod Stale
mod Tests
