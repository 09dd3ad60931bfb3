-- ===== src/Boot.antt =====
-- runtime/src/boot.rs: deciding whether this enclave is entitled to the state that it is about to
-- load.
pub mod Tests
pub mod Types
pub mod Receipt
pub mod Machine
pub mod Pools
pub mod Signed
pub mod Origin
pub mod Refusals
pub mod Kept
pub mod StoreTests
