-- ===== src/Auth.antt =====
-- Digest authentication: src/sip/auth.rs. The hash function is a parameter of what computes digests.
pub mod Params
pub mod Rounds
pub mod Digest
pub mod Nonce
pub mod Check
pub mod Validity
