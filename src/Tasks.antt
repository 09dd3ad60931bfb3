-- ===== src/Tasks.antt =====
-- runtime/src/tasks.rs: the durable queue of background tasks.
pub mod Types
pub mod Queue
pub mod Due
pub mod Quota
pub mod Attempts
pub mod Keyed
pub mod Made
pub mod Ordered
pub mod Turns
pub mod Tests
