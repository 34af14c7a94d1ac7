-- ===== src/Tests/Pool.antt =====
-- The pool of device memory at concrete buckets.
use fideslib.Prelude.{
  ℕ, ◌+◌, ◌*◌, ◌^◌, ◌≤◌, ◌≡◌, ◌≢◌, refl, ap, inl, inr, true, false, some, List, [], ◌∷◌, ◌==◌,
  if◌then◌else◌, arith, length, Bool-cases,
}
use fideslib.Prelude.Bits.{and_bits}
use fideslib.Pool.{
  GpuSlab, Bucket, Pool, class_size, next_pow2, pooled, inside, gpu_malloc, gpu_free, gpu_trim,
}
use fideslib.Pool.Chunks.{inside_count, count, IsConsistent}
use fideslib.Pool.Trim.{in_use, gpu_trim-IsConsistent}
use fideslib.Pool.Calls.{handed, given_back, gpu_malloc-IsConsistent, gpu_free-IsConsistent}
use fideslib.Pool.Sizes.{IsDoubled, class_size-least}
use fideslib.Pool.Threads.{both_start, schedule, popped, fault, gpu_malloc-races}

-- Two slabs of two chunks of 65536 bytes: of the first one a chunk is handed out.
abbrev busy : GpuSlab
busy = record { base = 0; bytes = 131072 }

abbrev spare : GpuSlab
spare = record { base = 131072; bytes = 131072 }

abbrev bucket : Bucket
bucket = record { free_limb = 196608 ∷ 131072 ∷ 65536 ∷ []; slabs = busy ∷ spare ∷ [] }

abbrev no_bucket : Bucket
no_bucket = record { free_limb = []; slabs = [] }

abbrev pool : Pool
pool size = if size == 65536 then bucket else no_bucket

abbrev live : ℕ → List ℕ
live size = if size == 65536 then 0 ∷ [] else []

bucket_once : (p : ℕ) → count p bucket.free_limb + count p (0 ∷ []) ≤ 1
unfolding count
bucket_once p = ground arith

bucket-IsConsistent : IsConsistent 65536 (0 ∷ []) bucket
unfolding inside_count inside
bucket-IsConsistent = record {
  accounted = (refl, (refl, tt));
  disjoint = ((inl (omega arith), tt), (tt, tt));
  once = bucket_once;
}

no_bucket-IsConsistent : (size : ℕ) → IsConsistent size [] no_bucket
unfolding count
no_bucket-IsConsistent size = record { accounted = tt; disjoint = tt; once = λ p. omega arith }

pool-IsConsistent : (size : ℕ) → IsConsistent size (live size) (pool size)
pool-IsConsistent size = elim (Bool-cases (size == 65536)) [
  | inl same ↦ let s : size ≡ 65536 = ground arith in rw s bucket-IsConsistent
  | inr other ↦ rw other (no_bucket-IsConsistent size)
]

gpu_trim-IsConsistent_example :
    IsConsistent 65536 (0 ∷ []) (gpu_trim pool 65536) × ((gpu_trim pool 65536).slabs ≡ busy ∷ [])
unfolding in_use inside_count inside
gpu_trim-IsConsistent_example = gpu_trim-IsConsistent live pool pool-IsConsistent 65536

bucket_some : bucket.free_limb ≢ []
bucket_some e = absurd (omega (arith, ap length e))

gpu_malloc-IsConsistent_example :
    (p : ℕ) × (pool' : Pool) × (gpu_malloc 999 65536 true pool ≡ some (p, pool'))
    × (count p (live 65536) ≡ 0)
    × ((size : ℕ) → IsConsistent size (handed 65536 p live size) (pool' size))
unfolding pooled class_size and_bits
gpu_malloc-IsConsistent_example =
    gpu_malloc-IsConsistent live pool 999 65536 true pool-IsConsistent (omega arith) refl
      (λ empty. absurd (bucket_some empty))

gpu_free-IsConsistent_example :
    IsConsistent 65536 (given_back 65536 0 live 65536) (gpu_free 0 65536 true pool 65536)
unfolding pooled class_size and_bits count
gpu_free-IsConsistent_example =
    gpu_free-IsConsistent live pool 0 65536 true pool-IsConsistent refl (omega arith) 65536

class_size-least_example :
    IsDoubled (class_size 3000) × (3000 ≤ class_size 3000) × (class_size 3000 ≤ 1024 * 2 ^ 2)
class_size-least_example = class_size-least 3000 2 (omega arith) (omega arith)

class_size_3000 : class_size 3000 ≡ 4096
unfolding class_size next_pow2
class_size_3000 = refl

gpu_malloc-races_example :
    ((schedule 0 131072 65536 (false ∷ true ∷ true ∷ false ∷ []) (both_start bucket)).left ≢ fault)
    × ((schedule 0 131072 65536 (false ∷ true ∷ true ∷ false ∷ []) (both_start bucket)).right
        ≢ fault)
    × (schedule 0 131072 65536
          (true ∷ false ∷ true ∷ false ∷ [])
          (both_start (record { free_limb = 7 ∷ []; slabs = busy ∷ [] }))
        ≡ record {
          bucket = record { free_limb = []; slabs = busy ∷ [] };
          left = popped 7;
          right = fault;
        })
gpu_malloc-races_example =
    gpu_malloc-races 0 131072 65536 bucket (false ∷ true ∷ true ∷ false ∷ []) 7 (busy ∷ [])
      (omega arith)
