-- ===== src/Approx.antt =====
-- src/CKKS/ApproxModEval.cu: the evaluation of Chebyshev series and of polynomials on a ciphertext.
-- One slot is followed, with exact arithmetic: levels, noise and scaling factors are left out.
pub mod Arithmetic
pub mod Vectors
pub mod Openfhe
pub mod Split
pub mod Step
pub mod Throws
pub mod WeightedSum
pub mod Powers
pub mod Chebyshev
pub mod Series
pub mod ModReduction
