-- ===== src/Ckks.antt =====
-- src/CKKS: the bookkeeping of ciphertexts and plaintexts (level, scaling degree and factor, slots,
-- key tag, extension by the special primes, eviction to the host), with the operations that
-- align operands.
pub mod Result
pub mod Context
pub mod Poly
pub mod Ciphertext
pub mod Scaling
pub mod Adjust
pub mod AddSub
pub mod Mult
pub mod Plaintext
pub mod PlainOps
