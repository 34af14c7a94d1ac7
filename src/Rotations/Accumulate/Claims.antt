-- ===== src/Rotations/Accumulate/Claims.antt =====
-- Accumulate with the keys of GetAccumulateRotationIndices, and the check of b_step.
use fideslib.Prelude.{
  ℕ, zero, suc, ◌+◌, ◌-◌, ◌*◌, ◌^◌, ◌≤◌, ◌<◌, ◌≡◌, ◌≢◌, ◌∙◌, sym, ap, inl, inr, Bool, true, false,
  List, [], ◌==◌, ltb, map, arith, Bool-cases, ==_iff,
}
use native.Mathlib.Nat.{mul-le-mul_right}
use fideslib.Prelude.Bits.{and_bits, and_pred-pow, and_pred-zero, lt_pow}
use fideslib.Prelude.Int.{pos}
use fideslib.Ckks.Result.{ok, err, invalid_argument, value_or}
use fideslib.Rotations.Evaluator.{Evaluator, all_served}
use fideslib.Rotations.Accumulate.{
  check_b_step, index_levels, get_accumulate_rotation_indices, accumulate_levels, accumulate,
}
use fideslib.Rotations.Accumulate.Sum.{rot_sum}
use fideslib.Rotations.Accumulate.Levels.{lockstep}

pub check-pow : (p : ℕ) → 1 ≤ p → check_b_step (2 ^ p) ≡ ok tt
unfolding check_b_step
check-pow p h =
    let big : ltb (2 ^ p) 2 ≡ false = ground (arith, lt_pow p) in
    let bits : (and_bits 32 (2 ^ p) (2 ^ p - 1) == 0) ≡ true = ground (arith, and_pred-pow 32 p) in
    ground (arith, big, bits)

check-other :
    (b : ℕ) → b < 2 ^ 32 → ((p : ℕ) → 1 ≤ p → b ≢ 2 ^ p) → check_b_step b ≡ err invalid_argument
unfolding check_b_step
check-other b h other = elim (Bool-cases (ltb b 2)) [
  | inl small ↦ rw small
  | inr big ↦ elim (Bool-cases (and_bits 32 b (b - 1) == 0)) [
    | inr set ↦ rw (big, set)
    | inl clear ↦
        let two : 2 ≤ b = ground arith in
        let (k, q, l) = and_pred-zero 32 b (omega arith) h ((==_iff _ 0).0 clear) in
        let positive : 1 ≤ k = exponent k q two in absurd (other k positive q)
  ]
]
  where
    exponent : (k : ℕ) → b ≡ 2 ^ k → 2 ≤ b → 1 ≤ k
    exponent zero q two = absurd (omega arith)
    exponent (suc k) q two = omega arith

get_lem :
    (b stride size : ℕ) (l : List ℕ)
    → check_b_step b ≡ ok tt
    → index_levels (stride * size + 1) stride b stride size ≡ ok l
    → get_accumulate_rotation_indices b stride size ≡ ok l
unfolding get_accumulate_rotation_indices
get_lem b stride size l h q = rw h q

accumulate_lem :
    (e : Evaluator) (key : ℕ → Bool) (b stride size : ℕ) (c r : e.Ct)
    → check_b_step b ≡ ok tt
    → 0 < size
    → accumulate_levels e key (size + 1) 1 b stride size c ≡ ok r
    → accumulate e key b stride size 1 c ≡ ok r
unfolding accumulate
accumulate_lem e key b stride size c r h p q =
    let s : (size == 0) ≡ false = ground arith in rw (h, s) q

-- Accumulate from start factor 1, for a b_step 2 ^ p of a 32-bit int, p at least 1, a positive
-- stride and a size 2 ^ m: GetAccumulateRotationIndices returns, and when each rotation that it
-- lists has a key or moves nothing, Accumulate returns the sum of the rotations of the ciphertext
-- by 0, stride, ..., (2 ^ m - 1) * stride.
pub accumulate-sums :
    (e : Evaluator) (key : ℕ → Bool) (p m stride : ℕ) (c : e.Ct)
    → 1 ≤ p
    → p < 32
    → 0 < stride
    → all_served e key
        (map pos (value_or [] (get_accumulate_rotation_indices (2 ^ p) stride (2 ^ m))))
      ≡ true
    → (get_accumulate_rotation_indices (2 ^ p) stride (2 ^ m)
        ≡ ok (value_or [] (get_accumulate_rotation_indices (2 ^ p) stride (2 ^ m))))
      × (accumulate e key (2 ^ p) stride (2 ^ m) 1 c ≡ ok (rot_sum e (2 ^ m - 1) stride c))
unfolding value_or rot_sum
accumulate-sums e key p m stride c p1 p2 sp keys =
    let one : stride * 1 ≡ stride = omega arith in
    let n : 1 * 2 ^ m ≡ 2 ^ m = omega arith in
    let get = get_accumulate_rotation_indices (2 ^ p) stride (2 ^ m) in
    let more : 1 * 2 ^ m ≤ stride * 2 ^ m = mul-le-mul_right (2 ^ m) sp in
    let (l, q, next) =
      lockstep stride p p1 p2 sp e key c (stride * 2 ^ m + 1) (2 ^ m + 1) m 1 (omega arith)
        (omega (arith, lt_pow m)) (omega (arith, lt_pow m)) in
    let got : get ≡ ok l = get_lem (2 ^ p) stride (2 ^ m) l (check-pow p p1) (rw (one, n) at q) in
    let same : value_or [] get ≡ l = ap (value_or []) got in
    (
      got ∙ ap ok (sym same),
      accumulate_lem e key (2 ^ p) stride (2 ^ m) c _ (check-pow p p1) (omega (arith, lt_pow m))
          (rw n at (next (rw same at keys))),
    )

-- Every b_step of 32 bits that is no power of two from 2 on is refused, with invalid_argument, by
-- Accumulate and by GetAccumulateRotationIndices.
pub accumulate-rejects :
    (e : Evaluator) (key : ℕ → Bool) (b stride size start_factor : ℕ) (c : e.Ct)
    → b < 2 ^ 32
    → ((p : ℕ) → 1 ≤ p → b ≢ 2 ^ p)
    → (accumulate e key b stride size start_factor c ≡ err invalid_argument)
      × (get_accumulate_rotation_indices b stride size ≡ err invalid_argument)
unfolding accumulate get_accumulate_rotation_indices
accumulate-rejects e key b stride size start_factor c h other =
    let refused = check-other b h other in (rw refused, rw refused)
