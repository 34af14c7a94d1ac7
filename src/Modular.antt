-- ===== src/Modular.antt =====
-- src/Math.cu, src/ModMult.cuh, src/AddSub.cuh and the precomputed factors of
-- src/ConstantsGPU.cu: arithmetic modulo a prime on machine words. The prime, the bit count and
-- the precomputed factor, which the kernels read from the constant tables by the prime's index,
-- are arguments here.
pub mod Words
pub mod Pow
pub mod Shoup
pub mod Barrett
