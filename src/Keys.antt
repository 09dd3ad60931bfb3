-- ===== src/Keys.antt =====
-- The parts of runtime/src/keys that read what the key service sends.
pub mod Ber
pub mod Tests
