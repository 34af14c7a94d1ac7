-- ===== src/Pool/Calls.antt =====
-- GPUmalloc and GPUfree keep the pool consistent with what is handed out.
use fideslib.Prelude.{
  ℕ, zero, suc, ◌+◌, ◌-◌, ◌*◌, ◌/◌, ◌^◌, ◌<◌, ◌≡◌, ◌⊎◌, sym, ap, refl, inl, inr, Bool, true, false,
  some, List, [], ◌∷◌, ◌==◌, if◌then◌else◌, arith, Bool-cases,
}
use mathlib.Core.Path.{subst}
use mathlib.Core.List.{append-nil}
use fideslib.Pool.{
  GpuSlab, Bucket, Pool, put, class_size, pooled, slab_size, carve, grow, pop_chunk, refill,
  gpu_malloc, gpu_free, is_empty,
}
use fideslib.Pool.Chunks.{count, IsConsistent}
use fideslib.Pool.Handed.{
  IsFresh, rounds_lem, grow-IsConsistent, hand_out-IsConsistent, take_back-IsConsistent, remove,
}
use fideslib.Pool.Sizes.{slab-Whole}

-- What is handed out of each size, with one chunk more or less
abbrev pub handed : (size p : ℕ) → (ℕ → List ℕ) → ℕ → List ℕ
handed size p live other = if other == size then p ∷ live size else live other

abbrev pub given_back : (size p : ℕ) → (ℕ → List ℕ) → ℕ → List ℕ
given_back size p live other = if other == size then remove p (live size) else live other

-- The slab that GPUmalloc would cut for a request
abbrev pub new_slab : ℕ → ℕ → GpuSlab
new_slab base bytes = record { base = base; bytes = slab_size bytes }

pub list_cases : (l : List ℕ) → (l ≡ []) ⊎ ((p : ℕ) × (rest : List ℕ) × (l ≡ p ∷ rest))
list_cases [] = inl refl
list_cases (p ∷ rest) = inr (p, rest, refl)

-- After the refill there is a chunk.
abbrev Refilled : (size : ℕ) → List ℕ → Bucket → Type 0
Refilled size live b =
    (p : ℕ) × (rest : List ℕ) × (b.free_limb ≡ p ∷ rest) × IsConsistent size live b

carve_some : (n base size : ℕ) → 0 < n → (p : ℕ) × (rest : List ℕ) × (carve n base size ≡ p ∷ rest)
unfolding carve
carve_some zero base size h = absurd (omega arith)
carve_some (suc n) base size h = (base + n * size, carve n base size, refl)

grow_some :
    (base slab size n : ℕ) (b : Bucket)
    → 0 < n
    → slab ≡ n * size
    → 0 < size
    → b.free_limb ≡ []
    → (p : ℕ) × (rest : List ℕ) × ((grow base slab size b).free_limb ≡ p ∷ rest)
unfolding grow
grow_some base slab size n b np e sp empty =
    let (p, rest, q) =
      carve_some ((slab + size - 1) / size) base size (rw (rounds_lem slab size n sp e) np) in
    (p, rest, rw (empty, q) (append-nil (p ∷ rest)))

refill_empty :
    (base slab size : ℕ) (b : Bucket)
    → b.free_limb ≡ []
    → refill base slab size b ≡ grow base slab size b
unfolding refill is_empty
refill_empty base slab size b h = let e : is_empty b.free_limb ≡ true = ap is_empty h in rw e

pub refill_some :
    (base slab size p : ℕ) (rest : List ℕ) (b : Bucket)
    → b.free_limb ≡ p ∷ rest
    → refill base slab size b ≡ b
unfolding refill is_empty
refill_some base slab size p rest b h = let e : is_empty b.free_limb ≡ false = ap is_empty h in rw e

refill_lem :
    (base bytes : ℕ) (cache : Bool) (live : List ℕ) (b : Bucket)
    → bytes < 2 ^ 31
    → pooled bytes cache ≡ true
    → (b.free_limb ≡ [] → IsFresh (new_slab base bytes) live b.slabs)
    → IsConsistent (class_size bytes) live b
    → Refilled (class_size bytes) live (refill base (slab_size bytes) (class_size bytes) b)
refill_lem base bytes cache live b h p fresh c = elim (list_cases b.free_limb) [
  | inl empty ↦
      let size = class_size bytes in
      let (n, e, np, sp) = slab-Whole bytes cache h p in
      let (q, rest, f) = grow_some base (slab_size bytes) size n b np e sp empty in
      subst (Refilled size live) (sym (refill_empty base (slab_size bytes) size b empty)) (
        q,
        rest,
        f,
        grow-IsConsistent size n live (new_slab base bytes) b sp e empty (fresh empty) c,
      )
  | inr (q, rest, e) ↦
      subst (Refilled (class_size bytes) live)
        (sym (refill_some base (slab_size bytes) (class_size bytes) q rest b e)) (q, rest, e, c)
]

pub pop_lem :
    (b : Bucket) (p : ℕ) (rest : List ℕ)
    → b.free_limb ≡ p ∷ rest
    → pop_chunk b ≡ some (p, record b { free_limb = rest })
unfolding pop_chunk
pop_lem b p rest e = rw e

-- A change of one bucket that keeps it consistent keeps all of them so.
put-IsConsistent :
    (size : ℕ) (chunks : List ℕ) (b : Bucket) (live : ℕ → List ℕ) (pool : Pool)
    → ((other : ℕ) → IsConsistent other (live other) (pool other))
    → IsConsistent size chunks b
    → (other : ℕ)
    → IsConsistent other (if other == size then chunks else live other) (put size b pool other)
put-IsConsistent size chunks b live pool h c other = elim (Bool-cases (other == size)) [
  | inl same ↦
      let s : size ≡ other = ground arith in
      rw same (subst (λ (o : ℕ). IsConsistent o chunks b) s c)
  | inr differs ↦ rw differs (h other)
]

malloc_lem :
    (base bytes p : ℕ) (cache : Bool) (pool : Pool) (rest : List ℕ) (b : Bucket)
    → pooled bytes cache ≡ true
    → refill base (slab_size bytes) (class_size bytes) (pool (class_size bytes)) ≡ b
    → b.free_limb ≡ p ∷ rest
    → gpu_malloc base bytes cache pool
      ≡ some (p, put (class_size bytes) (record b { free_limb = rest }) pool)
unfolding gpu_malloc
malloc_lem base bytes p cache pool rest b h r e = let f = pop_lem b p rest e in rw (h, r, f)

-- GPUmalloc of a request below 2 ^ 31 bytes that the pool serves, on a pool in which every bucket is
-- consistent with what is handed out; where the bucket has no free chunk, the memory that the
-- driver gives overlaps no slab of the bucket and no chunk of it that is handed out. The call
-- returns a chunk that was not handed out, and with it handed out every bucket is consistent again.
pub gpu_malloc-IsConsistent :
    (live : ℕ → List ℕ) (pool : Pool) (base bytes : ℕ) (cache : Bool)
    → ((size : ℕ) → IsConsistent size (live size) (pool size))
    → bytes < 2 ^ 31
    → pooled bytes cache ≡ true
    → ((pool (class_size bytes)).free_limb ≡ []
        → IsFresh (new_slab base bytes) (live (class_size bytes)) (pool (class_size bytes)).slabs)
    → (p : ℕ) × (pool' : Pool) × (gpu_malloc base bytes cache pool ≡ some (p, pool'))
      × (count p (live (class_size bytes)) ≡ 0)
      × ((size : ℕ) → IsConsistent size (handed (class_size bytes) p live size) (pool' size))
gpu_malloc-IsConsistent live pool base bytes cache h small p fresh =
    let size = class_size bytes in
    let b = refill base (slab_size bytes) size (pool size) in
    let (q, rest, e, c) =
      refill_lem base bytes cache (live size) (pool size) small p fresh (h size) in
    let (c', unused) = hand_out-IsConsistent size (live size) b q rest e c in
    (
      q,
      put size (record b { free_limb = rest }) pool,
      malloc_lem base bytes q cache pool rest b p refl e,
      unused,
      put-IsConsistent size (q ∷ live size) (record b { free_limb = rest }) live pool h c',
    )

-- GPUfree of a chunk that is handed out of the size of the request, which the pool serves, on a pool
-- in which every bucket is consistent with what is handed out: with the chunk given back, every
-- bucket is consistent again.
pub gpu_free-IsConsistent :
    (live : ℕ → List ℕ) (pool : Pool) (ptr bytes : ℕ) (cache : Bool)
    → ((size : ℕ) → IsConsistent size (live size) (pool size))
    → pooled bytes cache ≡ true
    → 0 < count ptr (live (class_size bytes))
    → (size : ℕ)
    → IsConsistent size
        (given_back (class_size bytes) ptr live size)
        (gpu_free ptr bytes cache pool size)
unfolding gpu_free
gpu_free-IsConsistent live pool ptr bytes cache h p there other =
    let size = class_size bytes in
    rw p (
      put-IsConsistent size (remove ptr (live size)) _ live pool h
        (take_back-IsConsistent size (live size) (pool size) ptr there (h size)) other)
