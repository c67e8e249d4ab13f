-- ===== src/Framing.antt =====
-- daemon/protocol.py, server/protocol.py and session/contracts.py: frames with a length before their
-- body, and the requests in them.
pub mod Stream
pub mod Frame
pub mod RoundTrip
pub mod Request
pub mod Requests
pub mod Contracts
pub mod Remote
mod Tests
mod RemoteTests
mod RequestTests
