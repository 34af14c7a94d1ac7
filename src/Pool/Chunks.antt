-- ===== src/Pool/Chunks.antt =====
-- When a bucket of the pool is consistent with the chunks that are handed out, and how the chunks
-- lie in its slabs.
use fideslib.Prelude.{
  ℕ, suc, ◌+◌, ◌/◌, ◌≤◌, ◌≡◌, ◌⊎◌, sym, refl, inl, inr, Bool, true, false, List, [], ◌∷◌, ◌++◌, map,
  ◌==◌, if◌then◌else◌, length, length-append, arith, Bool-cases,
}
use mathlib.Core.List.{append_assoc}
use fideslib.Pool.{GpuSlab, Bucket, inside, first_in, free_count, freed_from}

abbrev pub All : (GpuSlab → Type 0) → List GpuSlab → Type 0
All holds [] = Unit {0}
All holds (s ∷ rest) = holds s × All holds rest

unfoldable pub inside_count : GpuSlab → List ℕ → ℕ
inside_count s [] = 0
inside_count s (p ∷ ps) = (if inside p s then 1 else 0) + inside_count s ps

unfoldable pub count : ℕ → List ℕ → ℕ
count p [] = 0
count p (q ∷ qs) = (if q == p then 1 else 0) + count p qs

abbrev pub Apart : GpuSlab → GpuSlab → Type 0
Apart s t = (s.base + s.bytes ≤ t.base) ⊎ (t.base + t.bytes ≤ s.base)

abbrev pub Disjoint : List GpuSlab → Type 0
Disjoint [] = Unit {0}
Disjoint (s ∷ rest) = All (Apart s) rest × Disjoint rest

-- All chunks of each slab are free or handed out, the slabs do not overlap, and no chunk is there
-- twice.
pub record IsConsistent (size : ℕ) (live : List ℕ) (b : Bucket) : Type 0 where
  pub accounted :
      All (λ s. inside_count s b.free_limb + inside_count s live ≡ s.bytes / size) b.slabs
  pub disjoint : Disjoint b.slabs
  pub once : (p : ℕ) → count p b.free_limb + count p live ≤ 1

-- All its chunks are free.
abbrev pub idle : ℕ → List ℕ → GpuSlab → Bool
idle size free s = inside_count s free == s.bytes / size

pub Apart-sym : (s t : GpuSlab) → Apart s t → Apart t s
Apart-sym s t (inl h) = inr h
Apart-sym s t (inr h) = inl h

pub Apart-inside : (p : ℕ) (s t : GpuSlab) → Apart s t → inside p s ≡ true → inside p t ≡ false
unfolding inside
Apart-inside p s t (inl h) k = ground arith
Apart-inside p s t (inr h) k = ground arith

All-middle :
    (P : GpuSlab → Type 0) (pre : List GpuSlab) (s : GpuSlab) (rest : List GpuSlab)
    → All P (pre ++ (s ∷ rest))
    → P s
All-middle P [] s rest h = h.0
All-middle P (t ∷ pre) s rest h = All-middle P pre s rest h.1

-- A slab of the list is apart from those before it and after it.
pub Disjoint-middle :
    (pre : List GpuSlab) (s : GpuSlab) (rest : List GpuSlab)
    → Disjoint (pre ++ (s ∷ rest))
    → All (Apart s) pre × All (Apart s) rest
Disjoint-middle [] s rest h = (tt, h.0)
Disjoint-middle (t ∷ pre) s rest h =
    let (before, after) = Disjoint-middle pre s rest h.1 in
    ((Apart-sym t s (All-middle (Apart t) pre s rest h.0), before), after)

first_in_lem :
    (p : ℕ) (pre : List GpuSlab) (s : GpuSlab) (rest : List GpuSlab)
    → All (Apart s) pre
    → first_in (length pre) p (pre ++ (s ∷ rest)) ≡ inside p s
unfolding first_in
first_in_lem p [] s rest h = refl
first_in_lem p (t ∷ pre) s rest h = elim (Bool-cases (inside p t)) [
  | inl here ↦ rw here (sym (Apart-inside p t s (Apart-sym s t h.0) here))
  | inr none ↦ rw none (first_in_lem p pre s rest h.1)
]

free_count_lem :
    (pre : List GpuSlab) (s : GpuSlab) (rest : List GpuSlab) (free : List ℕ)
    → All (Apart s) pre
    → free_count (length pre) (pre ++ (s ∷ rest)) free ≡ inside_count s free
unfolding free_count inside_count
free_count_lem pre s rest [] h = refl
free_count_lem pre s rest (p ∷ ps) h =
    rw (first_in_lem p pre s rest h, free_count_lem pre s rest ps h)

freed_from_lem :
    (size : ℕ) (pre rest : List GpuSlab) (free : List ℕ)
    → Disjoint (pre ++ rest)
    → freed_from size (length pre) (pre ++ rest) free rest ≡ map (idle size free) rest
unfolding freed_from
freed_from_lem size pre [] free h = refl
freed_from_lem size pre (s ∷ rest) free h =
    let here = free_count_lem pre s rest free (Disjoint-middle pre s rest h).0 in
    let same : pre ++ (s ∷ rest) ≡ (pre ++ (s ∷ [])) ++ rest =
      sym (append_assoc pre (s ∷ []) rest) in
    let number : length (pre ++ (s ∷ [])) ≡ suc (length pre) =
      omega (arith, length-append pre (s ∷ [])) in
    let more = freed_from_lem size (pre ++ (s ∷ [])) rest free (rw same at h) in
    let more' = rw (number, sym same) at more in rw (here, more')

-- The slabs that GPUtrim gives back, as it finds them
pub freed-idle :
    (size : ℕ) (slabs : List GpuSlab) (free : List ℕ)
    → Disjoint slabs
    → freed_from size 0 slabs free slabs ≡ map (idle size free) slabs
freed-idle size slabs free h = freed_from_lem size [] slabs free h
