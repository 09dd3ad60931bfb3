-- ===== src/Store.antt =====
-- runtime/src/store: the object store that anchors and boot records live in.
pub mod Tests
pub mod Types
pub mod Memory
