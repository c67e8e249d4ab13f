-- ===== src/Core.antt =====
-- core/errors.py: the stable error codes, and the error that trusted code raises.
mod Errors
pub use Errors.*
