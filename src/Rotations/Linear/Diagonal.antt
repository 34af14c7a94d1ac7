-- ===== src/Rotations/Linear/Diagonal.antt =====
-- LinearTransform computes the sum over the diagonals, with plaintexts rotated by the indexes of
-- GetLinearTransformPlaintextRotationIndices and the keys of GetLinearTransformRotationIndices.
use fideslib.Prelude.{
  ℕ, suc, ◌+◌, ◌-◌, ◌*◌, ◌/◌, ◌≤◌, ◌<◌, ◌≡◌, ◌≢◌, ◌⊎◌, ◌↔◌, sym, ap, Bool, true, false, List, ◌∷◌,
  ltb, length, arith,
}
use native.Mathlib.Nat.{mul_comm, div-mul-le_self, lt-div-mul-add}
use fideslib.Prelude.Int.{ℤ, pos, times, ◌+ℤ◌, times_zero, zero-+ℤ}
use fideslib.Ckks.Result.{ok}
use fideslib.Rotations.Evaluator.{Evaluator, residue, normalyze_index, rotate_hoisted, all_served}
use fideslib.Rotations.Linear.{
  giant_steps, step_indexes, get_linear_transform_rotation_indices,
  get_linear_transform_plaintext_rotation_indices, sum_terms, dot_rows, fold_rows, offset_rotate,
  linear_transform,
}
use fideslib.Rotations.Linear.Sums.{diagonals}
use fideslib.Rotations.Linear.Indexes.{prepared, at-prepared, length-prepared}
use fideslib.Rotations.Linear.Rows.{fold_lem}
use fideslib.Rotations.Linear.Keys.{fast_served, giant_ok, offset_ok}

giant_steps_bounds :
    (r b : ℕ)
    → 0 < r
    → 0 < b
    → (suc (giant_steps r b - 1) ≡ giant_steps r b)
      × (b * (giant_steps r b - 1) < r)
      × (r ≤ b * (giant_steps r b - 1) + b)
unfolding giant_steps
giant_steps_bounds r b rp bp =
    let g = (r + b - 1) / b in
    let low = lt-div-mul-add {a = r + b - 1} bp in
    let high = div-mul-le_self (r + b - 1) b in
    let comm = mul_comm g b in
    let positive : 0 < g = grind arith in
    let s : suc (g - 1) ≡ g = omega arith in
    let product : b * suc (g - 1) ≡ b * g = ap (λ (x : ℕ). b * x) s in (s, omega arith, omega arith)

-- The parts of the call, one after the other
linear_transform_lem :
    (e : Evaluator) (key : ℕ → Bool) (debug : Bool) (row_size b : ℕ) (pts : List e.Pt)
    (stride offset : ℤ) (c : e.Ct) (fast rows : List e.Ct) (v r : e.Ct)
    → length pts ≡ row_size
    → rotate_hoisted e key (step_indexes b 0 stride) c ≡ ok fast
    → dot_rows e row_size b pts fast (giant_steps row_size b) 0 ≡ ok rows
    → fold_rows e key debug (times b stride) rows ≡ ok v
    → offset_rotate e key debug offset v ≡ ok r
    → linear_transform e key debug row_size b pts stride offset c ≡ ok r
unfolding linear_transform
linear_transform_lem e key debug row_size b pts stride offset c fast rows v r len f d s o =
    let enough : ltb (length pts) row_size ≡ false = ground (arith, len) in
    ground (arith, enough, f, d, s, o)

last_turn :
    (e : Evaluator) (b : ℕ) (stride offset : ℤ) (c : e.Ct) (q : ℕ → e.Pt) (row_size : ℕ) (v : e.Ct)
    → sum_terms e (diagonals e q stride offset c (row_size - 0) 0)
      ≡ ok (e.rotate (times (b * 0) stride +ℤ offset) v)
    → sum_terms e (diagonals e q stride offset c row_size 0) ≡ ok (e.rotate offset v)
last_turn e b stride offset c q row_size v h =
    let n : row_size - 0 ≡ row_size = omega arith in
    let z : b * 0 ≡ 0 = omega arith in rw (n, z, times_zero stride, zero-+ℤ offset) at h

-- LinearTransform over an evaluator with slots, of a matrix with row_size > 0 diagonals q 0, q 1, ...
-- and a positive bStep, with plaintexts rotated by GetLinearTransformPlaintextRotationIndices. Each
-- rotation of GetLinearTransformRotationIndices has a key or moves nothing; bStep * stride moves
-- nothing exactly when N / 2 divides it; and the offset is 0 or moves something. The call returns,
-- with assertions or without, and its result is the sum over the diagonals k of the ciphertext
-- rotated by k * stride + offset times q k.
pub linear_transform-diagonals :
    (e : Evaluator) (key : ℕ → Bool) (debug : Bool) (row_size b : ℕ) (stride offset : ℤ)
    (q : ℕ → e.Pt) (c : e.Ct)
    → 0 < e.slots
    → 0 < b
    → 0 < row_size
    → all_served e key (get_linear_transform_rotation_indices b stride offset) ≡ true
    → (residue (times b stride) (e.ring / 2) ≡ 0)
      ↔ (normalyze_index (times b stride) e.slots e.ring ≡ 0)
    → (offset ≡ pos 0) ⊎ (normalyze_index offset e.slots e.ring ≢ 0)
    → (r : e.Ct) × (linear_transform e key debug row_size b
          (prepared e q 0
            (get_linear_transform_plaintext_rotation_indices row_size b stride offset))
          stride
          offset
          c
        ≡ ok r)
      × (sum_terms e (diagonals e q stride offset c row_size 0) ≡ ok r)
linear_transform-diagonals e key debug row_size b stride offset q c sp bp rp keys same moves =
    let pts =
      prepared e q 0 (get_linear_transform_plaintext_rotation_indices row_size b stride offset) in
    let (steps, below, above) = giant_steps_bounds row_size b rp bp in
    let zero_times : b * 0 ≡ 0 = omega arith in
    let (first, rest, v, rows, folded, whole) =
      fold_lem e row_size b stride offset q c pts bp (at-prepared row_size b stride offset bp e q)
        key debug (λ w. giant_ok e key b stride offset bp sp keys debug w same)
        (giant_steps row_size b - 1) 0 0 (sym zero_times) (omega arith) (omega arith) in
    (
      e.rotate offset v,
      linear_transform_lem e key debug row_size b pts stride offset c _ (first ∷ rest) v _
          (length-prepared row_size b stride offset bp e q)
          (fast_served e key b stride offset bp sp keys c) (rw steps at rows) folded
          (offset_ok e key b stride offset bp sp keys debug v moves),
      last_turn e b stride offset c q row_size v whole,
    )
