-- ===== src/Keys.antt =====
-- The rotation keys of a context and the cache that bounds the device memory they take
-- (src/CKKS/Context.cu, src/CKKS/KeySwitchingKey.cu).
pub mod Cache
pub mod Store
pub mod Bookkeeping
pub mod Evict
pub mod Lookup
