-- ===== src/Pool/Threads.antt =====
-- src/CudaUtils.cu, GPUmalloc by two threads on one bucket: the look at free_limb.empty(), with the
-- refill where it is empty, is one step, before the lock is taken; the pop under the lock is another.
use fideslib.Prelude.{
  ℕ, ◌+◌, ◌≤◌, ◌≡◌, ◌≢◌, refl, sym, subst, Bool, true, false, List, [], ◌∷◌, length, arith, some,
  none,
}
use mathlib.Core.Logic.{inl, inr}
use fideslib.Pool.Calls.{list_cases, refill_some, pop_lem}
use fideslib.Pool.{GpuSlab, Bucket, pop_chunk, refill, is_empty}

-- Where a thread is in GPUmalloc: `popped` with its chunk, `fault` after a pop of an empty list
pub data Thread : Type 0 where
  start looked : Thread
  popped : (chunk : ℕ) → Thread
  fault : Thread

pub record Race : Type 0 where
  pub bucket : Bucket
  pub left : Thread
  pub right : Thread

module _ (base slab size : ℕ) where
  -- One step of a thread, on the bucket that it shares
  unfoldable pub thread_step : Thread → Bucket → Thread × Bucket
  thread_step start b = (looked, refill base slab size b)
  thread_step looked b = elim (pop_chunk b) [ none ↦ (fault, b) | some (p, b') ↦ (popped p, b') ]
  thread_step (popped p) b = (popped p, b)
  thread_step fault b = (fault, b)

  -- `true` is a step of the left thread.
  unfoldable pub race_step : Bool → Race → Race
  race_step true r = let (t, b) = thread_step r.left r.bucket in record r { bucket = b; left = t }
  race_step false r =
      let (t, b) = thread_step r.right r.bucket in record r { bucket = b; right = t }

  unfoldable pub schedule : List Bool → Race → Race
  schedule [] r = r
  schedule (who ∷ rest) r = schedule rest (race_step who r)

  -- The chunks that a thread has still to take
  abbrev wants : Thread → ℕ
  wants start = 1
  wants looked = 1
  wants t = 0

  abbrev Sound : Thread → Type 0
  Sound fault = ⊥
  Sound t = Unit {0}

  record Enough (r : Race) : Type 0 where
    pub chunks : wants r.left + wants r.right ≤ length r.bucket.free_limb
    pub left_sound : Sound r.left
    pub right_sound : Sound r.right

  looked_step :
      (b : Bucket) (p : ℕ) (rest : List ℕ)
      → b.free_limb ≡ p ∷ rest
      → thread_step looked b ≡ (popped p, record b { free_limb = rest })
  unfolding thread_step
  looked_step b p rest e = ground (arith, pop_lem b p rest e)

  thread_step-Enough :
      (t : Thread) (b : Bucket) (others : ℕ)
      → Sound t
      → wants t + others ≤ length b.free_limb
      → Sound (thread_step t b).0
        × (wants (thread_step t b).0 + others ≤ length (thread_step t b).1.free_limb)
  unfolding thread_step
  thread_step-Enough start b others s h = elim (list_cases b.free_limb) [
    | inl empty ↦ absurd (let l = rw empty at h in omega arith)
    | inr (p, rest, e) ↦ let same = refill_some base slab size p rest b e in rw same (tt, h)
  ]
  thread_step-Enough looked b others s h = elim (list_cases b.free_limb) [
    | inl empty ↦ absurd (let l = rw empty at h in omega arith)
    | inr (p, rest, e) ↦
        let l = rw e at h in
        subst (λ (x : Thread × Bucket). Sound x.0 × (wants x.0 + others ≤ length x.1.free_limb))
          (sym (looked_step b p rest e)) (tt, omega arith)
  ]
  thread_step-Enough (popped p) b others s h = (tt, h)
  thread_step-Enough fault b others s h = absurd s

  race_step-Enough : (who : Bool) (r : Race) → Enough r → Enough (race_step who r)
  unfolding race_step
  race_step-Enough true r h =
      let (s, c) = thread_step-Enough r.left r.bucket (wants r.right) h.left_sound h.chunks in
      record { chunks = c; left_sound = s; right_sound = h.right_sound }
  race_step-Enough false r h =
      let (s, c) =
        thread_step-Enough r.right r.bucket (wants r.left) h.right_sound
          (omega (arith, h.chunks)) in
      record { chunks = omega (arith, c); left_sound = h.left_sound; right_sound = s }

  schedule-Enough : (steps : List Bool) (r : Race) → Enough r → Enough (schedule steps r)
  unfolding schedule
  schedule-Enough [] r h = h
  schedule-Enough (who ∷ steps) r h =
      schedule-Enough steps (race_step who r) (race_step-Enough who r h)

  Sound-ne-fault : (t : Thread) → Sound t → t ≢ fault
  Sound-ne-fault start s e = cc
  Sound-ne-fault looked s e = cc
  Sound-ne-fault (popped p) s e = cc
  Sound-ne-fault fault s e = absurd s

abbrev pub both_start : Bucket → Race
both_start b = record { bucket = b; left = start; right = start }

-- Two threads in GPUmalloc on one bucket. With two free chunks or more at the start, no order of
-- their steps makes either pop an empty list. With one free chunk p, the order look, look, pop, pop
-- gives the chunk to the first and makes the second pop an empty list.
pub gpu_malloc-races :
    (base slab size : ℕ) (b : Bucket) (steps : List Bool) (p : ℕ) (slabs : List GpuSlab)
    → 2 ≤ length b.free_limb
    → ((schedule base slab size steps (both_start b)).left ≢ fault)
      × ((schedule base slab size steps (both_start b)).right ≢ fault)
      × (schedule base slab size
            (true ∷ false ∷ true ∷ false ∷ [])
            (both_start (record { free_limb = p ∷ []; slabs = slabs }))
          ≡ record {
            bucket = record { free_limb = []; slabs = slabs };
            left = popped p;
            right = fault;
          })
unfolding schedule race_step thread_step refill pop_chunk is_empty
gpu_malloc-races base slab size b steps p slabs h =
    let e =
      schedule-Enough base slab size steps (both_start b)
        (record { chunks = omega arith; left_sound = tt; right_sound = tt }) in
    (
      Sound-ne-fault base slab size _ e.left_sound,
      Sound-ne-fault base slab size _ e.right_sound,
      refl,
    )
