-- ===== src/Grant.antt =====
-- crypto/grants.py and grants/lifecycle.py: signed grants, their checks, issue and renewal.
pub mod Types
pub mod Payload
pub mod Verify
pub mod Trust
pub mod RoundTrip
pub mod Equal
pub mod Compare
pub mod Lifecycle
pub mod Widening
pub mod Unchanged
pub mod Approval
pub mod Tests
mod ApprovalTests
