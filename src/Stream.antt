-- ===== src/Stream.antt =====
-- The upstream streams of runtime/src/stream.rs: what a guest is told of them.
pub mod Sse
pub mod Tests
