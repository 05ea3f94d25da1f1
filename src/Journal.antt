-- ===== src/Journal.antt =====
-- The write-ahead journal, internal/journal.
pub mod Bytes
pub mod Checksum
pub mod Codec
pub mod Payload
pub mod RoundTrip
pub mod Total
pub mod Header
pub mod Reader
pub mod Writer
pub mod Files
pub mod Tests
