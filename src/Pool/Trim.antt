-- ===== src/Pool/Trim.antt =====
-- GPUtrim gives back exactly the slabs that no chunk is handed out from, and keeps the rest as it was.
use fideslib.Prelude.{
  ℕ, ◌+◌, ◌/◌, ◌≤◌, ◌≡◌, sym, refl, inl, inr, Bool, true, false, List, [], ◌∷◌, ◌++◌, map, ◌==◌,
  if◌then◌else◌, arith, Bool-cases,
}
use mathlib.Core.List.{append_assoc}
use fideslib.Pool.{
  GpuSlab, Bucket, Pool, inside, freed_from, in_freed, surviving_chunks, surviving_slabs,
  trim_bucket, gpu_trim,
}
use fideslib.Pool.Chunks.{
  All, inside_count, count, Apart, Disjoint, IsConsistent, idle, Apart-inside, Disjoint-middle,
  freed-idle,
}

-- The slabs that a chunk of the list lies in
unfoldable pub in_use : List ℕ → List GpuSlab → List GpuSlab
in_use live [] = []
in_use live (s ∷ rest) = if inside_count s live == 0 then in_use live rest else s ∷ in_use live rest

module _ (size : ℕ) (free : List ℕ) where
  abbrev flags : List GpuSlab → List Bool
  flags = map (idle size free)

  not_in_freed :
      (p : ℕ) (s : GpuSlab) (slabs : List GpuSlab)
      → All (Apart s) slabs
      → inside p s ≡ true
      → in_freed p (flags slabs) slabs ≡ false
  unfolding in_freed
  not_in_freed p s [] h k = refl
  not_in_freed p s (t ∷ slabs) h k =
      ground (arith, Apart-inside p s t h.0 k, not_in_freed p s slabs h.1 k)

  -- A chunk of a slab that is not idle survives.
  chunk_survives :
      (p : ℕ) (pre : List GpuSlab) (s : GpuSlab) (rest : List GpuSlab)
      → All (Apart s) pre
      → All (Apart s) rest
      → idle size free s ≡ false
      → inside p s ≡ true
      → in_freed p (flags (pre ++ (s ∷ rest))) (pre ++ (s ∷ rest)) ≡ false
  unfolding in_freed
  chunk_survives p [] s rest a b busy k = ground (arith, not_in_freed p s rest b k)
  chunk_survives p (t ∷ pre) s rest a b busy k =
      ground (arith, Apart-inside p s t a.0 k, chunk_survives p pre s rest a.1 b busy k)

  survivors_count :
      (pre : List GpuSlab) (s : GpuSlab) (rest : List GpuSlab) (ps : List ℕ)
      → All (Apart s) pre
      → All (Apart s) rest
      → idle size free s ≡ false
      → inside_count s (surviving_chunks (flags (pre ++ (s ∷ rest))) (pre ++ (s ∷ rest)) ps)
        ≡ inside_count s ps
  unfolding surviving_chunks inside_count
  survivors_count pre s rest [] a b busy = refl
  survivors_count pre s rest (p ∷ ps) a b busy =
      let ih = survivors_count pre s rest ps a b busy in
      let slabs = pre ++ (s ∷ rest) in
      elim (Bool-cases (in_freed p (flags slabs) slabs)) [
        | inr stays ↦ rw (stays, ih)
        | inl goes ↦ elim (Bool-cases (inside p s)) [
          | inl here ↦ let stays = chunk_survives p pre s rest a b busy here in cc
          | inr out ↦ rw (goes, out, ih) (omega arith)
        ]
      ]

  count_le :
      (bs : List Bool) (slabs : List GpuSlab) (p : ℕ) (ps : List ℕ)
      → count p (surviving_chunks bs slabs ps) ≤ count p ps
  unfolding surviving_chunks count
  count_le bs slabs p [] = omega arith
  count_le bs slabs p (q ∷ ps) = ground (arith, count_le bs slabs p ps)

  module _ (live : List ℕ) where
    abbrev Accounted : List ℕ → GpuSlab → Type 0
    Accounted chunks s = inside_count s chunks + inside_count s live ≡ s.bytes / size

    -- The slabs that survive are those in use.
    survive-in_use :
        (slabs : List GpuSlab)
        → All (Accounted free) slabs
        → surviving_slabs (flags slabs) slabs ≡ in_use live slabs
    unfolding surviving_slabs in_use
    survive-in_use [] h = refl
    survive-in_use (s ∷ slabs) h =
        let ih = survive-in_use slabs h.1 in
        let a = h.0 in
        elim (Bool-cases (inside_count s live == 0)) [
          | inl none ↦ let i : idle size free s ≡ true = ground arith in rw (none, i, ih)
          | inr busy ↦ let i : idle size free s ≡ false = ground arith in rw (busy, i, ih)
        ]

    survive-Accounted :
        (pre rest : List GpuSlab)
        → Disjoint (pre ++ rest)
        → All (Accounted free) rest
        → All
            (Accounted (surviving_chunks (flags (pre ++ rest)) (pre ++ rest) free))
            (surviving_slabs (flags rest) rest)
    unfolding surviving_slabs
    survive-Accounted pre [] d h = tt
    survive-Accounted pre (s ∷ rest) d h =
        let (before, after) = Disjoint-middle pre s rest d in
        let same : pre ++ (s ∷ rest) ≡ (pre ++ (s ∷ [])) ++ rest =
          sym (append_assoc pre (s ∷ []) rest) in
        let more = survive-Accounted (pre ++ (s ∷ [])) rest (rw same at d) h.1 in
        let more' = rw (sym same) at more in
        elim (Bool-cases (idle size free s)) [
          | inl i ↦ rw i more'
          | inr busy ↦ rw busy (rw (survivors_count pre s rest free before after busy) h.0, more')
        ]

  survive-Apart :
      (s : GpuSlab) (bs : List Bool) (slabs : List GpuSlab)
      → All (Apart s) slabs
      → All (Apart s) (surviving_slabs bs slabs)
  unfolding surviving_slabs
  survive-Apart s [] slabs h = tt
  survive-Apart s (f ∷ bs) [] h = tt
  survive-Apart s (true ∷ bs) (t ∷ slabs) h = survive-Apart s bs slabs h.1
  survive-Apart s (false ∷ bs) (t ∷ slabs) h = (h.0, survive-Apart s bs slabs h.1)

  survive-Disjoint :
      (bs : List Bool) (slabs : List GpuSlab) → Disjoint slabs → Disjoint (surviving_slabs bs slabs)
  unfolding surviving_slabs
  survive-Disjoint [] slabs h = tt
  survive-Disjoint (f ∷ bs) [] h = tt
  survive-Disjoint (true ∷ bs) (t ∷ slabs) h = survive-Disjoint bs slabs h.1
  survive-Disjoint (false ∷ bs) (t ∷ slabs) h =
      (survive-Apart t bs slabs h.0, survive-Disjoint bs slabs h.1)

trim_bucket-IsConsistent :
    (size : ℕ) (live : List ℕ) (b : Bucket)
    → IsConsistent size live b
    → IsConsistent size live (trim_bucket size b)
      × ((trim_bucket size b).slabs ≡ in_use live b.slabs)
unfolding trim_bucket
trim_bucket-IsConsistent size live b h =
    let idles = freed-idle size b.slabs b.free_limb h.disjoint in
    (
      record {
        accounted =
            rw idles (survive-Accounted size b.free_limb live [] b.slabs h.disjoint h.accounted);
        disjoint = survive-Disjoint size b.free_limb _ b.slabs h.disjoint;
        once = λ p.
            let c =
              count_le size b.free_limb (freed_from size 0 b.slabs b.free_limb b.slabs) b.slabs p
                b.free_limb in
            let o = h.once p in omega arith;
      },
      rw idles (survive-in_use size b.free_limb live b.slabs h.accounted),
    )

-- GPUtrim on a pool in which every bucket is consistent with the chunks that are handed out: every
-- bucket is so afterwards, with the same chunks handed out, and the slabs that stay are exactly
-- those that a chunk is handed out from, in their order.
pub gpu_trim-IsConsistent :
    (live : ℕ → List ℕ) (pool : Pool)
    → ((size : ℕ) → IsConsistent size (live size) (pool size))
    → (size : ℕ)
    → IsConsistent size (live size) (gpu_trim pool size)
      × ((gpu_trim pool size).slabs ≡ in_use (live size) (pool size).slabs)
unfolding gpu_trim
gpu_trim-IsConsistent live pool h size =
    trim_bucket-IsConsistent size (live size) (pool size) (h size)
