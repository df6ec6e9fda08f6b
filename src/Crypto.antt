-- ===== src/Crypto.antt =====
-- src/crypto/eip712.c: hexadecimal text, hashing, signing with a recovery id, and the typed-data
-- hashes.
pub mod Hex
pub mod Keccak
pub mod Ecdsa
pub mod Eip712
