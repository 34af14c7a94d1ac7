-- ===== src/Rotations.antt =====
-- Rotations of ciphertexts, and the sums and transforms built on them: which rotations they ask for,
-- and what they compute, over any ciphertexts with the operations of Evaluator.
pub mod Evaluator
pub mod Accumulate
pub mod Broadcast
pub mod Convolution
pub mod Linear
