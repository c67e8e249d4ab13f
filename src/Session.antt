-- ===== src/Session.antt =====
-- session/: the ceiling of the server on grants, and the scope of listings in a session.
pub mod Ceiling
pub mod Overlap
pub mod Admission
pub mod Listing
pub mod Confined
mod Tests
mod ListingTests
