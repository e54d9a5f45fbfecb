-- ===== src/Async.antt =====
-- include/ozo/impl: the asynchronous operations over libpq's nonblocking calls.
pub mod Native
pub mod Request
pub mod RequestOids
pub mod Transaction
pub mod Timed
pub mod Connect
mod Tests
