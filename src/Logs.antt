-- ===== src/Logs.antt =====
-- runtime/src/guest_io/cloudwatch.rs: how records are split into calls.
pub mod Chunks
pub mod Packed
pub mod Sent
pub mod Tests
