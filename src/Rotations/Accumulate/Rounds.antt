-- ===== src/Rotations/Accumulate/Rounds.antt =====
-- One round of Accumulate, and of GetAccumulateRotationIndices beside it.
use fideslib.Prelude.{
  ℕ, zero, suc, ◌+◌, ◌-◌, ◌*◌, ◌/◌, ◌^◌, ◌≤◌, ◌<◌, ◌≡◌, ◌⊎◌, ◌∙◌, ap, refl, inl, inr, Bool, true,
  List, [], ◌∷◌, ◌++◌, ltb, map, arith,
}
use native.Mathlib.Nat.{
  mul_comm, mul_assoc, mul-div_cancel_left, mul-div_cancel, mul-lt-mul_of_pos_left,
}
use fideslib.Prelude.Bits.{bit_width, bit_width-pow}
use fideslib.Prelude.Int.{pos}
use fideslib.Ckks.Result.{ok}
use fideslib.Rotations.Evaluator.{Evaluator, all_served}
use fideslib.Rotations.Accumulate.{
  shifted, strides, index_levels, aux_slots, add_all, accumulate_levels,
}
use fideslib.Rotations.Accumulate.Sum.{multiples, strides_lem, rot_sum, fold_lem, hoisted_lem}

-- The rounds of the two loops, for a step of the power b = 2 ^ p and a unit of `stride`
module _ (stride p : ℕ) (one_le : 1 ≤ p) (fits : p < 32) (stride_pos : 0 < stride) where
  shifted_lem : (s : ℕ) → shifted s (2 ^ p) ≡ s * 2 ^ p
  unfolding shifted
  shifted_lem s =
      let w : bit_width 32 (2 ^ p) - 1 ≡ p = omega (arith, bit_width-pow 32 p fits) in
      ap (λ (x : ℕ). s * 2 ^ x) w

  swap : {A B : Type 0} → A ⊎ B → B ⊎ A
  swap (inl a) = inr a
  swap (inr b) = inl b

  -- A round has m terms: the smaller of 2 ^ p and 2 ^ r.
  module _ (t r m : ℕ) (tp : 0 < t) (mp : 1 < m) (hr : m ≤ 2 ^ r) (hp : m ≤ 2 ^ p)
      (d : (m ≡ 2 ^ r) ⊎ (m ≡ 2 ^ p)) where
    index_strides :
        strides (2 ^ p) (stride * t) (stride * t) (stride * t * 2 ^ p) (stride * (t * 2 ^ r))
        ≡ ok (multiples (m - 1) 1 (stride * t))
    index_strides =
        let w = stride * t in
        let wp : 0 < w = grind arith in
        let lem =
          strides_lem (2 ^ p) (m - 1) 1 w (2 ^ p) (2 ^ r) m wp (omega arith) hp hr (swap d)
            (omega arith) in
        let a : 1 * w ≡ w = omega arith in
        let b : 2 ^ p * w ≡ stride * t * 2 ^ p = omega (arith, mul_comm (2 ^ p) w) in
        let c : 2 ^ r * w ≡ stride * (t * 2 ^ r) =
          omega (arith, mul_comm (2 ^ r) w, mul_assoc stride t (2 ^ r)) in
        rw (a, b, c) at lem

    level_strides :
        strides (2 ^ p) (stride * t) (stride * t) (stride * (t * 2 ^ r)) (2 ^ p * stride * t)
        ≡ ok (multiples (m - 1) 1 (stride * t))
    level_strides =
        let w = stride * t in
        let wp : 0 < w = grind arith in
        let lem =
          strides_lem (2 ^ p) (m - 1) 1 w (2 ^ r) (2 ^ p) m wp (omega arith) hr hp d
            (omega arith) in
        let a : 1 * w ≡ w = omega arith in
        let b : 2 ^ p * w ≡ 2 ^ p * stride * t = omega (arith, mul_assoc (2 ^ p) stride t) in
        let c : 2 ^ r * w ≡ stride * (t * 2 ^ r) =
          omega (arith, mul_comm (2 ^ r) w, mul_assoc stride t (2 ^ r)) in
        rw (a, b, c) at lem

    aux_lem :
        (n j : ℕ)
        → 0 < j
        → j + n ≤ 2 ^ p
        → (l : List ℕ) × (aux_slots (2 ^ p) stride t (multiples n j (stride * t)) ≡ ok l)
    unfolding aux_slots multiples
    aux_lem zero j jp h = ([], refl)
    aux_lem (suc n) j jp h =
        let (l, q) = aux_lem n (suc j) (omega arith) (omega arith) in
        let at : j * (stride * t) / stride / t ≡ j =
          ap (λ (x : ℕ). x / stride / t)
            (omega (arith, mul_assoc stride j t, mul_comm stride j, mul_assoc j stride t))
          ∙ ap (λ (x : ℕ). x / t) (mul-div_cancel_left (j * t) stride_pos)
          ∙ mul-div_cancel j tp in
        let inside : ltb (j - 1) (2 ^ p - 1) ≡ true = ground arith in
        (((j - 1) ∷ l), rw (at, inside, q))

    more : t < t * 2 ^ r
    more = omega (arith, mul-lt-mul_of_pos_left {m = 1} {n = 2 ^ r} {k = t} (omega arith) tp)

    pub index_round :
        (fuel : ℕ) (rest : List ℕ)
        → index_levels fuel (stride * (t * 2 ^ p)) (2 ^ p) stride (t * 2 ^ r) ≡ ok rest
        → index_levels (suc fuel) (stride * t) (2 ^ p) stride (t * 2 ^ r)
          ≡ ok (multiples (m - 1) 1 (stride * t) ++ rest)
    unfolding index_levels
    index_round fuel rest h =
        let go = mul-lt-mul_of_pos_left more stride_pos in
        let next : shifted (stride * t) (2 ^ p) ≡ stride * (t * 2 ^ p) =
          shifted_lem (stride * t) ∙ mul_assoc stride t (2 ^ p) in
        let h' : index_levels fuel (shifted (stride * t) (2 ^ p)) (2 ^ p) stride (t * 2 ^ r)
            ≡ ok rest =
          rw next h in
        ground (arith, go, index_strides, h')

    module _ (e : Evaluator) (key : ℕ → Bool) (c : e.Ct) where
      open e use {Ct, rotate}

      folded :
          add_all e (rot_sum e (t - 1) stride c) (
            map
              (λ (i : ℕ). rotate (pos i) (rot_sum e (t - 1) stride c))
              (multiples (m - 1) 1 (stride * t)))
          ≡ rot_sum e (t * m - 1) stride c
      folded =
          let t' : suc (t - 1) ≡ t = omega arith in
          let w : t * stride ≡ stride * t = mul_comm t stride in
          let k : t - 1 + (m - 1) * t ≡ t * m - 1 = omega (
            arith,
            ap (λ (x : ℕ). x * t) (let s : suc (m - 1) ≡ m = omega arith in s),
            mul_comm t m,
          ) in
          let lem = fold_lem e (m - 1) 1 (t - 1) (t - 1) stride c (omega arith) in
          rw (t', w, k) at lem

      pub level_round :
          (fuel : ℕ) (r' : Ct)
          → all_served e key (map pos (multiples (m - 1) 1 (stride * t))) ≡ true
          → accumulate_levels e key fuel
              (t * 2 ^ p)
              (2 ^ p)
              stride
              (t * 2 ^ r)
              (rot_sum e (t * m - 1) stride c)
            ≡ ok r'
          → accumulate_levels e key
              (suc fuel)
              t
              (2 ^ p)
              stride
              (t * 2 ^ r)
              (rot_sum e (t - 1) stride c)
            ≡ ok r'
      unfolding accumulate_levels
      level_round fuel r' keys h =
          let (l, q) = aux_lem (m - 1) 1 (omega arith) (omega arith) in
          let a = rot_sum e (t - 1) stride c in
          let outs = hoisted_lem e key (multiples (m - 1) 1 (stride * t)) a keys in
          let h' : accumulate_levels e key fuel (shifted t (2 ^ p)) (2 ^ p) stride (t * 2 ^ r)
                (add_all e a (map (λ (i : ℕ). rotate (pos i) a) (multiples (m - 1) 1 (stride * t))))
              ≡ ok r' =
            rw (shifted_lem t, folded) h in
          ground (arith, more, level_strides, q, outs, h')
