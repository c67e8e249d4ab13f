-- ===== src/Profile.antt =====
-- profile.py: the projected-home profile schema and its policy matcher.
pub mod Rule
pub mod Paths
pub mod Policy
pub mod Decisions
pub mod Validated
mod Tests
