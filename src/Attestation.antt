-- ===== src/Attestation.antt =====
-- crates/nitro-attestation/src/lib.rs: reading and checking NSM attestation documents.
pub mod Tests
pub mod Types
pub mod Payload
pub mod Chain
pub mod Sound
pub mod Expect
pub mod Hashes
