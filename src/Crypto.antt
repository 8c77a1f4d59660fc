-- ===== src/Crypto.antt =====
-- windows/crypto: reading of public keys and the check of signatures.
pub mod Der
pub mod Keys
pub mod Signature
