-- ===== src/Zfs.antt =====
-- runtime/src/zfs.rs: the pools of the enclave's disk, their anchor chains and the tenant catalog.
pub mod Types
pub mod Tip
pub mod Anchor
pub mod Kernel
pub mod Admit
pub mod Generation
pub mod Pool
pub mod Catalog
pub mod Tenants
pub mod Tests
pub mod PoolTests
pub mod CatalogTests
