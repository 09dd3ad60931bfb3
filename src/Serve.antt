-- ===== src/Serve.antt =====
-- runtime/src/serve: the slots that calls check out, and the watch over a stream.
pub mod Pool
pub mod Progress
pub mod Tests
