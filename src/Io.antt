-- ===== src/Io.antt =====
-- include/ozo/io and what it stands on: the binary representation of query parameters and results.
pub mod Endian
pub mod Stream
pub mod Types
pub mod OidMap
pub mod SizeOf
pub mod Send
pub mod Recv
pub mod Fits
pub mod RoundTrip
pub mod Length
pub mod BinaryQuery
mod Tests
