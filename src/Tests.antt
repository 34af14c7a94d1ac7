-- ===== src/Tests.antt =====
-- Runs of the operations at concrete inputs, and the theorems at inputs where they apply.
mod Trits
mod Approx
mod Boot
mod Modular
mod Ckks
mod Keys
mod Limbs
mod Rotations
mod Pool
