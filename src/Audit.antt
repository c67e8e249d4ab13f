-- ===== src/Audit.antt =====
-- audit/events.py: events, their payload schema, and the chain of events.
pub mod Json
pub mod Schema
pub mod Event
pub mod Private
pub mod Chain
pub mod Linear
mod Tests
