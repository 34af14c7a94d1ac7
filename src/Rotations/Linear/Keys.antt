-- ===== src/Rotations/Linear/Keys.antt =====
-- The rotations of LinearTransform are served by the keys of GetLinearTransformRotationIndices.
use fideslib.Prelude.{
  ℕ, zero, suc, ◌+◌, ◌-◌, ◌/◌, ◌<◌, ◌≡◌, ◌≢◌, ◌⊎◌, ◌↔◌, sym, ap, refl, inl, inr, Bool, true, false,
  List, [], ◌∷◌, ◌++◌, ◌==◌, if◌then◌else◌, arith, Bool-cases, ==_iff,
}
use native.Mathlib.Nat.{mod-eq_of_lt}
use fideslib.Prelude.Int.{ℤ, pos, times, eqb_ℤ, eqb_ℤ→eq, times_zero}
use fideslib.Ckks.Result.{ok}
use fideslib.Rotations.Evaluator.{
  Evaluator, residue, normalyze_index, served, all_served, rotate_hoisted, hoisted-served,
  rotate_one,
}
use fideslib.Rotations.Linear.{
  step_indexes, get_linear_transform_rotation_indices, giant_rotate, offset_rotate,
}

-- The rotations of c by i * stride, n of them from i on
unfoldable pub fasts : (e : Evaluator) → e.Ct → ℤ → (n i : ℕ) → List e.Ct
fasts e c stride zero i = []
fasts e c stride (suc n) i = e.rotate (times i stride) c ∷ fasts e c stride n (suc i)

pub step_indexes_last :
    (n i : ℕ) (stride : ℤ)
    → step_indexes (suc n) i stride ≡ step_indexes n i stride ++ (times (i + n) stride ∷ [])
unfolding step_indexes
step_indexes_last zero i stride = let s : i + 0 ≡ i = omega arith in rw s
step_indexes_last (suc n) i stride =
    let s : i + suc n ≡ suc i + n = omega arith in
    rw s (ap (λ (l : List ℤ). times i stride ∷ l) (step_indexes_last n (suc i) stride))

module _ (e : Evaluator) (key : ℕ → Bool) where
  open e use {Ct, slots, ring, rotate, rotate_still}

  pub all_served-append :
      (is js : List ℤ)
      → all_served e key (is ++ js) ≡ true
      → (all_served e key is ≡ true) × (all_served e key js ≡ true)
  unfolding all_served
  all_served-append [] js h = (refl, h)
  all_served-append (i ∷ is) js h = ground (arith, all_served-append is js)

  pub served_head : (i : ℤ) → all_served e key (i ∷ []) ≡ true → served e key i ≡ true
  unfolding all_served
  served_head i h = ground arith

  served_cons :
      (i : ℤ) (is : List ℤ)
      → served e key i ≡ true
      → all_served e key is ≡ true
      → all_served e key (i ∷ is) ≡ true
  unfolding all_served
  served_cons i is h k = ground arith

  still : (n : ℕ) → 0 < n → normalyze_index (pos 0) n ring ≡ 0
  unfolding normalyze_index residue
  still n h = ground (arith, mod-eq_of_lt h)

  served_zero : (stride : ℤ) → 0 < slots → served e key (times 0 stride) ≡ true
  unfolding served
  served_zero stride h = let z = still slots h in rw (times_zero stride, z)

  fast_lem :
      (c : Ct) (stride : ℤ) (n i : ℕ)
      → all_served e key (step_indexes n i stride) ≡ true
      → rotate_hoisted e key (step_indexes n i stride) c ≡ ok (fasts e c stride n i)
  unfolding all_served rotate_hoisted fasts step_indexes
  fast_lem c stride zero i h = refl
  fast_lem c stride (suc n) i h =
      ground (arith, hoisted-served e key (times i stride) c, fast_lem c stride n (suc i))

  -- From the indexes of 1, ..., n + 1 to those of 0, ..., n, and to n + 1
  served_shifted :
      (n : ℕ) (stride : ℤ)
      → 0 < slots
      → all_served e key (step_indexes (suc n) 1 stride) ≡ true
      → (all_served e key (step_indexes (suc n) 0 stride) ≡ true)
        × (served e key (times (suc n) stride) ≡ true)
  unfolding step_indexes
  served_shifted n stride sp h =
      let h' = rw (step_indexes_last n 1 stride) at h in
      let s : 1 + n ≡ suc n = omega arith in
      let (most, last) = all_served-append (step_indexes n 1 stride) _ h' in
      (
        served_cons (times 0 stride) (step_indexes n 1 stride) (served_zero stride sp) most,
        rw s at (served_head _ last),
      )

  -- What the keys of the list serve
  module _ (b : ℕ) (stride offset : ℤ) (bp : 0 < b) (sp : 0 < slots)
      (keys : all_served e key (get_linear_transform_rotation_indices b stride offset) ≡ true) where
    parts :
        (all_served e key (step_indexes b 1 stride) ≡ true)
        × (all_served e key (if eqb_ℤ offset (pos 0) then [] else offset ∷ []) ≡ true)
    unfolding get_linear_transform_rotation_indices
    parts = all_served-append (step_indexes b 1 stride) _ keys

    shifted :
        (all_served e key (step_indexes b 0 stride) ≡ true) × (served e key (times b stride) ≡ true)
    shifted =
        let s : b ≡ suc (b - 1) = omega arith in
        rw s (served_shifted (b - 1) stride sp (rw s at parts.0))

    pub fast_served :
        (c : Ct) → rotate_hoisted e key (step_indexes b 0 stride) c ≡ ok (fasts e c stride b 0)
    fast_served c = fast_lem c stride b 0 shifted.0

    pub giant_ok :
        (debug : Bool) (c : Ct)
        → (residue (times b stride) (ring / 2) ≡ 0)
          ↔ (normalyze_index (times b stride) slots ring ≡ 0)
        → giant_rotate e key debug (times b stride) c ≡ ok (rotate (times b stride) c)
    unfolding giant_rotate rotate_one served
    giant_ok debug c same =
        let s = shifted.1 in
        elim (Bool-cases (residue (times b stride) (ring / 2) == 0)) [
          | inl divides ↦
              let none = rotate_still (times b stride) c (same.0 ((==_iff _ 0).0 divides)) in
              rw (divides, none)
          | inr moves ↦
              let turn : (normalyze_index (times b stride) slots ring == 0) ≡ false =
                ground (arith, same.1, moves) in
              ground (arith, s, turn, moves)
        ]

    pub offset_ok :
        (debug : Bool) (c : Ct)
        → (offset ≡ pos 0) ⊎ (normalyze_index offset slots ring ≢ 0)
        → offset_rotate e key debug offset c ≡ ok (rotate offset c)
    unfolding offset_rotate rotate_one served
    offset_ok debug c moves = elim moves [
      | inl zero_offset ↦ rw zero_offset (sym (ap ok (rotate_still (pos 0) c (still slots sp))))
      | inr turns ↦ elim (Bool-cases (eqb_ℤ offset (pos 0))) [
        | inl zero_offset ↦
            let none = rotate_still (pos 0) c (still slots sp) in
            rw (eqb_ℤ→eq offset (pos 0) zero_offset, none)
        | inr there ↦
            let s = served_head offset (rw there at parts.1) in
            let turn : (normalyze_index offset slots ring == 0) ≡ false = ground (arith, turns) in
            ground (arith, s, turn, there)
      ]
    ]
