-- ===== src/Pool.antt =====
-- src/CudaUtils.cu: the pool of device memory of one device, GPUmalloc, GPUfree, GPUtrim and the
-- statistics. Addresses are numbers. The bucket of each size has the free chunks, the next one
-- first, and the slabs that chunks were cut from. What cudaMallocAsync answers is an argument.
-- Streams, events and the NVTX records are left out.
pub mod Calls
pub mod Chunks
pub mod Handed
pub mod Sizes
pub mod Threads
pub mod Trim
use fideslib.Prelude.{
  ℕ, zero, suc, ◌+◌, ◌-◌, ◌*◌, ◌/◌, Bool, true, false, not, ◌&&◌, ◌||◌, Option, some, none, List,
  [], ◌∷◌, ◌++◌, ltb, leb, ◌==◌, if◌then◌else◌, length,
}
use fideslib.Prelude.Bits.{and_bits}

pub record GpuSlab : Type 0 where
  pub base : ℕ
  pub bytes : ℕ

pub record Bucket : Type 0 where
  pub free_limb : List ℕ
  pub slabs : List GpuSlab

-- size_to_memory and slab_registry of a device: the bucket of each size
abbrev pub Pool : Type 0
Pool = ℕ → Bucket

abbrev pub put : ℕ → Bucket → Pool → Pool
put size b pool other = if other == size then b else pool other

-- while (next_pow2 < bytes) next_pow2 *= 2
unfoldable pub next_pow2 : ℕ → ℕ → ℕ → ℕ
next_pow2 zero n bytes = n
next_pow2 (suc fuel) n bytes = elim (ltb n bytes) [
  | true ↦ next_pow2 fuel (n * 2) bytes
  | false ↦ n
]

abbrev pub small_limit : ℕ
small_limit = 65536

-- The size that a request has: small ones are rounded up. From 1024 to 65536 there are 6 doublings.
unfoldable pub class_size : ℕ → ℕ
class_size bytes = if ltb bytes small_limit then next_pow2 6 1024 bytes else bytes

-- Does the pool serve it? Small requests always, others if asked to and of a power of two.
unfoldable pub pooled : ℕ → Bool → Bool
pooled bytes cache =
    (ltb bytes small_limit || cache) && and_bits 32 (class_size bytes) (class_size bytes - 1) == 0

-- MBs * 1024 * 1024
unfoldable pub slab_size : ℕ → ℕ
slab_size bytes = (if ltb bytes small_limit then class_size bytes / 1024 else 1024) * 1024 * 1024

-- The chunks of a slab, the last one first
unfoldable pub carve : (count base size : ℕ) → List ℕ
carve zero base size = []
carve (suc count) base size = (base + count * size) ∷ carve count base size

-- for (i = 0; i < slab; i += size) free_limb.emplace_back(base + i)
unfoldable pub grow : (base slab size : ℕ) → Bucket → Bucket
grow base slab size b = record {
  free_limb = carve ((slab + size - 1) / size) base size ++ b.free_limb;
  slabs = b.slabs ++ (record { base = base; bytes = slab } ∷ []);
}

-- free_limb.back() and pop_back(); `none` is a pop from an empty list.
unfoldable pub pop_chunk : Bucket → Option (ℕ × Bucket)
pop_chunk b = elim b.free_limb [ [] ↦ none | p ∷ rest ↦ some (p, record b { free_limb = rest }) ]

is_empty : List ℕ → Bool
is_empty [] = true
is_empty (p ∷ ps) = false

unfoldable pub refill : (base slab size : ℕ) → Bucket → Bucket
unfolding is_empty
refill base slab size b = if is_empty b.free_limb then grow base slab size b else b

-- GPUmalloc: the pointer and the pool. `base` is what cudaMallocAsync answers, where it is called.
unfoldable pub gpu_malloc : (base bytes : ℕ) → Bool → Pool → Option (ℕ × Pool)
gpu_malloc base bytes cache pool =
    let size = class_size bytes in
    if pooled bytes cache
    then elim (pop_chunk (refill base (slab_size bytes) size (pool size))) [
      | none ↦ none
      | some (p, b) ↦ some (p, put size b pool)
    ]
    else some (base, pool)

-- GPUfree: what the pool does not serve goes to cudaFreeAsync.
unfoldable pub gpu_free : (ptr bytes : ℕ) → Bool → Pool → Pool
gpu_free ptr bytes cache pool =
    let size = class_size bytes in
    let b = pool size in
    if pooled bytes cache then put size (record b { free_limb = ptr ∷ b.free_limb }) pool else pool

unfoldable pub inside : ℕ → GpuSlab → Bool
inside p s = leb s.base p && ltb p (s.base + s.bytes)

-- Is slab number i, counted from 0, the first that the pointer lies in?
unfoldable pub first_in : ℕ → ℕ → List GpuSlab → Bool
first_in i p [] = false
first_in zero p (s ∷ rest) = inside p s
first_in (suc i) p (s ∷ rest) = if inside p s then false else first_in i p rest

-- freeCount[i]
unfoldable pub free_count : ℕ → List GpuSlab → List ℕ → ℕ
free_count i slabs [] = 0
free_count i slabs (p ∷ ps) = (if first_in i p slabs then 1 else 0) + free_count i slabs ps

-- freed[i], for the slabs from number i on
unfoldable pub freed_from : (size i : ℕ) → List GpuSlab → List ℕ → List GpuSlab → List Bool
freed_from size i slabs free [] = []
freed_from size i slabs free (s ∷ rest) =
    (free_count i slabs free == s.bytes / size) ∷ freed_from size (suc i) slabs free rest

unfoldable pub in_freed : ℕ → List Bool → List GpuSlab → Bool
in_freed p (f ∷ fs) (s ∷ ss) = f && inside p s || in_freed p fs ss
in_freed p fs ss = false

unfoldable pub surviving_chunks : List Bool → List GpuSlab → List ℕ → List ℕ
surviving_chunks freed slabs [] = []
surviving_chunks freed slabs (p ∷ ps) =
    let rest = surviving_chunks freed slabs ps in if in_freed p freed slabs then rest else p ∷ rest

unfoldable pub surviving_slabs : List Bool → List GpuSlab → List GpuSlab
surviving_slabs (f ∷ fs) (s ∷ ss) = let rest = surviving_slabs fs ss in if f then rest else s ∷ rest
surviving_slabs fs ss = []

-- A slab goes back to the driver when all its chunks are free.
unfoldable pub trim_bucket : ℕ → Bucket → Bucket
trim_bucket size b =
    let freed = freed_from size 0 b.slabs b.free_limb b.slabs in
    record {
      free_limb = surviving_chunks freed b.slabs b.free_limb;
      slabs = surviving_slabs freed b.slabs;
    }

unfoldable pub gpu_trim : Pool → Pool
gpu_trim pool size = trim_bucket size (pool size)

-- GPUPoolBucketStats
pub record BucketStats : Type 0 where
  pub slab_count : ℕ
  pub reserved : ℕ
  pub total : ℕ
  pub free : ℕ
  pub in_use : ℕ

reserved_bytes : List GpuSlab → ℕ
reserved_bytes [] = 0
reserved_bytes (s ∷ rest) = s.bytes + reserved_bytes rest

total_chunks : ℕ → List GpuSlab → ℕ
total_chunks size [] = 0
total_chunks size (s ∷ rest) = s.bytes / size + total_chunks size rest

unfoldable pub bucket_stats : ℕ → Bucket → BucketStats
unfolding reserved_bytes total_chunks
bucket_stats size b = record {
  slab_count = length b.slabs;
  reserved = reserved_bytes b.slabs;
  total = total_chunks size b.slabs;
  free = length b.free_limb;
  in_use = total_chunks size b.slabs - length b.free_limb;
}
