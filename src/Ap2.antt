-- ===== src/Ap2.antt =====
-- The signed AP2 profile of packages/ap2/src.
pub mod Calendar
pub mod Types
pub mod Canonical
pub mod Intent
pub mod Credential
pub mod Validator
pub mod Normalized
pub mod Bound
pub mod Parsing
pub mod Admission
pub mod Exact
pub mod Nonce
pub mod Accepted
pub mod Once
