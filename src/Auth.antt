-- ===== src/Auth.antt =====
-- runtime/src/auth: what a passkey approval is recorded as, and how it is spent.
pub mod Token
pub mod Challenge
pub mod Tests
