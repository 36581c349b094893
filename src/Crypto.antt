-- ===== src/Crypto.antt =====
-- src/common/hcs_crypto.c: hash algorithms, the chain hash, signatures, and the loading of keys.
pub mod Alg
pub mod Host
pub mod Hash
pub mod Keys
