-- ===== src/Lib.antt =====
-- FIDESlib is a CKKS homomorphic-encryption library on GPUs: it loads contexts, keys and ciphertexts
-- from OpenFHE and runs the operations on the devices. This library models its arithmetic on words,
-- the operations on ciphertexts and plaintexts as far as levels, degrees, scaling factors and
-- metadata go, the caches of rotation keys and bootstrap plaintexts, the placement of limbs on
-- devices, the pool of device memory, the sums and transforms that are built on rotations, and the
-- evaluation of series and polynomials at a slot.
--
-- Parts and files (paths from the repository's root):
-- - Modular (src/AddSub.cuh, src/ModMult.cuh, src/Math.cu, src/ConstantsGPU.cu). Words: modadd,
--   modsub, modprod of the device and the host. Pow: modpow, modinv. Shoup: Shoup_mult,
--   shoup_precomp, Shoup_reduce_128. Barrett: mu_new, Neal_mult, Neal_reduce. Words are numbers with
--   their wrap-around written out.
-- - Ckks (src/CKKS/Ciphertext.cpp, src/CKKS/Plaintext.cu, src/CKKS/RNSPoly.cpp,
--   src/CKKS/Context.cuh). Result: how an operation ends. Context: the technique and the tables of
--   scaling factors. Poly: the level of an RNS polynomial and its flag for special limbs.
--   Ciphertext: the state, metadata, offload and reload. Scaling: rescaleInternal, multScalar,
--   raiseDegreeToLevel. Adjust: adjustScaleAndLevel, dropToLevel, adjustForAddOrSub, adjustForMult.
--   AddSub: add, addMutable, sub. Mult: mult, multMutable, square. Plaintext: the state of a
--   plaintext and its alignment. PlainOps: addPt, subPt, multPt and their mutable forms. AddSub,
--   Mult and PlainOps call Adjust, which calls Scaling.
-- - Keys (src/CKKS/Context.cu, src/CKKS/KeySwitchingKey.cu). Cache: KeyPrecomputations, with touch,
--   offloadKey, evictToFit, ensureResident. Store: the key sets of a context by tag, GetRotationKey
--   and the index it serves, AddRotationKey, pinning and budgets. Bookkeeping, Evict, Lookup: proofs.
-- - Boot (src/CKKS/Context.cu, src/CKKS/BootstrapPrecomputation.cuh). The cache of the plaintexts of
--   the bootstrap precomputation: eviction, admission and acquisition of a group. Fields, Freed, Order,
--   Evict: the groups that an eviction offloads. Invariant, Load, Acquire: what a use of a group leaves.
-- - Limbs (src/CKKS/Context.cu): which limb lies on which device and in which digit.
-- - Pool (src/CudaUtils.cu): GPUmalloc, GPUfree, GPUtrim. Chunks: when a bucket is consistent with
--   what is handed out. Calls, Handed, Sizes, Trim: proofs. Threads: two threads in GPUmalloc.
-- - Rotations. Evaluator (src/CKKS/Context.cu, src/CKKS/Ciphertext.cpp): normalyzeIndex, rotate,
--   rotate_hoisted. Accumulate, Broadcast (src/CKKS/AccumulateBroadcast.cu). Linear, Convolution
--   (src/CKKS/LinearTransform.cu): LinearTransform, ConvolutionTransform, and the rotation indexes
--   for which their callers make keys. All are over Evaluator, a record of ciphertexts with sums,
--   products with plaintexts and rotations, and the laws of these.
-- - Approx (src/CKKS/ApproxModEval.cu, src/CKKS/Ciphertext.cpp): evalChebyshevSeries, evalPowers
--   and evalPolyWithPrecomp on one slot. Arithmetic: exact numbers. Openfhe: what is called of
--   OpenFHE. Vectors, Split, Step, Throws: the divisions of a step of the Paterson-Stockmeyer
--   recursion, and their exceptions. WeightedSum: the weighted sums, single and in a batch. Chebyshev: innerEvalChebyshevPS in its
--   three modes. Series: the driver and its powers. Powers: evalPowersPS and
--   evalPolyPSWithPrecomp; its Fused, the form in two passes; its Sparse, the linear forms below
--   degree 5; its Dispatch, the choice between them. ModReduction: approxModReduction and the
--   iterations of the double angle.
-- - Prelude: shared names, tests on numbers, signed integers, bits, remainders. Tests: runs and
--   instances.
--
-- Modelling. An operation takes the state of its object and returns the new one, in Result, whose
-- errors are the exceptions and, in a build with assertions, the failed assertions (`debug`). A
-- level l is written as its number of towers l + 1. Scaling factors are doubles in the source:
-- here they are an abstract type with its operations, and IsExact assumes exact arithmetic and
-- tables that agree (what the source checks up to rounding). What the limbs hold is represented by
-- `scale`, the factor of the encrypted message. A key tag is a number, 0 for the empty one. In
-- Rotations levels, noise and the lazy reductions of the limbs are left out, `key` says which
-- normalized indexes have a key, and the numbers of the source do not leave the range of int. In
-- Pool an address is a number, and what cudaMallocAsync answers is an argument. In Approx a
-- ciphertext is the value of one slot, with exact arithmetic: levels, rescaling and noise are left
-- out. OpenFHE's Degree, its divisions, which throw on a dominant coefficient of zero,
-- ComputeDegreesPS and its tests of a coefficient are parameters, and so are the scalars of the
-- double angle, which are powers of 2 pi. The assertion of getLevel that both components have one
-- level, the range checks of the plaintext's tables above the top level, and the classes of moduli
-- that a load looks up are left out, and the search of GetRotationKey stands behind `key`.
--
-- Fuel. add, sub, mult, addPt, subPt and multPt call themselves on an adjusted operand: two units,
-- one call and one repetition. modpow: 65 units, one for each bit of the exponent and one to
-- leave. The index decomposition of evalPowersLinear: one round for each bit of a 32-bit index.
-- evictToFit: one round for each key in lru_order and one more. The loop that raises a negative
-- rotation index: one round for each unit below 0. Accumulate: the inner loop b_step rounds, the
-- outer one a round for each unit of its bound and one more. Broadcast and its index list: a round
-- for each unit of the bound and one more. The halving of ConvolutionTransform: a round for each
-- result and one more. GPUmalloc's rounding: 6 doublings from 1024. `out_of_fuel` stands for a
-- loop that has not ended.
--
-- Not modelled: the contents of the limbs (NTT, base conversion, key switching), CUDA streams and
-- events, the words of the bootstrap cache's snapshots, what Broadcast computes, the other
-- transforms, bootstrapping, the conversion from OpenFHE, and the public wrappers in api.
pub mod Prelude
pub mod Modular
pub mod Approx
pub mod Boot
pub mod Ckks
pub mod Keys
pub mod Limbs
pub mod Pool
pub mod Rotations
pub mod Tests
