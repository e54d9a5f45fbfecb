-- ===== src/Errors.antt =====
-- include/ozo/error.h and include/ozo/detail/base36.h: the error codes and their messages.
pub mod Codes
pub mod Base36
pub mod SqlState
mod Tests
