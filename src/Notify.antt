-- ===== src/Notify.antt =====
-- runtime/src/notify: where a tenant can be woken.
pub mod Devices
pub mod Tests
