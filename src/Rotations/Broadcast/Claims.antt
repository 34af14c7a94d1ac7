-- ===== src/Rotations/Broadcast/Claims.antt =====
-- Broadcast with the keys of GetbroadcastRotationIndices.
use fideslib.Prelude.{
  ℕ, zero, suc, ◌+◌, ◌-◌, ◌*◌, ◌/◌, ◌^◌, ◌≤◌, ◌<◌, ◌≡◌, refl, ◌∙◌, sym, ap, inl, inr, Bool, true,
  false, List, [], ◌∷◌, ◌++◌, ltb, leb, ◌==◌, arith, Bool-cases,
}
use native.Mathlib.Nat.{mul_comm, mul_assoc, mul-le-mul_left, mul-le-mul_right, mul-div_cancel}
use fideslib.Prelude.Bits.{bit_width-pow, pow_le}
use fideslib.Prelude.Int.{ℤ, pos, negsuc}
use fideslib.Ckks.Result.{ok, err, guard, missing_key, value_or}
use fideslib.Rotations.Evaluator.{Evaluator, normalyze_index, rotate_hoisted, hoisted}
use fideslib.Rotations.Accumulate.{shifted, strides, aux_slots}
use fideslib.Rotations.Accumulate.Claims.{check-pow}
use fideslib.Rotations.Accumulate.Sum.{multiples, strides_lem}
use fideslib.Rotations.Broadcast.{
  minus_plus_one, last_indexes, broadcast_index_levels, get_broadcast_rotation_indices,
  broadcast_level, broadcast_levels, broadcast,
}

pub all_negative : List ℤ → Bool
all_negative [] = true
all_negative (pos n ∷ is) = false
all_negative (negsuc n ∷ is) = all_negative is

all_negative-append :
    (xs ys : List ℤ)
    → all_negative xs ≡ true
    → all_negative ys ≡ true
    → all_negative (xs ++ ys) ≡ true
unfolding all_negative
all_negative-append [] ys h k = k
all_negative-append (pos n ∷ xs) ys h k = cc
all_negative-append (negsuc n ∷ xs) ys h k = all_negative-append xs ys h k

minus_lem :
    (n : ℕ) (is : List ℤ)
    → 2 ≤ n
    → all_negative is ≡ true
    → all_negative (minus_plus_one n ∷ is) ≡ true
unfolding all_negative minus_plus_one
minus_lem zero is h k = absurd (omega (arith, h))
minus_lem (suc zero) is h k = absurd (omega (arith, h))
minus_lem (suc (suc n)) is h k = k

last_indexes-negative :
    (n i s outsize : ℕ) → 1 ≤ i → 2 ≤ s → all_negative (last_indexes n i s outsize) ≡ true
unfolding last_indexes all_negative
last_indexes-negative zero i s outsize h k = refl
last_indexes-negative (suc n) i s outsize h k =
    let ih = last_indexes-negative n (suc i) s outsize (omega arith) k in
    let big : 2 ≤ i * s =
      let wide = mul-le-mul_right {m = 1} {n = i} s h in omega (arith, wide, k) in
    elim (Bool-cases (ltb (i * s) (outsize + 1))) [
      | inl fits ↦ rw fits (minus_lem (i * s) (last_indexes n (suc i) s outsize) big ih)
      | inr out ↦ rw out ih
    ]

shifted_lem : (s p : ℕ) → p < 32 → shifted s (2 ^ p) ≡ s * 2 ^ p
unfolding shifted
shifted_lem s p h = let e : suc p - 1 ≡ p = omega arith in rw (bit_width-pow 32 p h, e)

level_lem :
    (fuel s s' b stride size outsize : ℕ) (l : List ℤ)
    → ltb s (stride * size) ≡ true
    → leb (stride * size) (stride * s * b) ≡ true
    → shifted s b ≡ s'
    → broadcast_index_levels fuel s' b stride size outsize ≡ ok l
    → broadcast_index_levels (suc fuel) s b stride size outsize
      ≡ ok (last_indexes b 1 s outsize ++ l)
unfolding broadcast_index_levels
level_lem fuel s s' b stride size outsize l more fits next h =
    rw (broadcast_index_levels, more, fits, next, h)

-- Once a level is the last one, so are those behind it.
levels_negative :
    (fuel s p stride size outsize : ℕ)
    → 1 ≤ p
    → p < 32
    → 2 ≤ s
    → 1 ≤ fuel
    → stride * size < s + fuel
    → stride * size ≤ stride * s * 2 ^ p
    → (l : List ℤ) × (broadcast_index_levels fuel s (2 ^ p) stride size outsize ≡ ok l)
      × (all_negative l ≡ true)
unfolding broadcast_index_levels all_negative
levels_negative zero s p stride size outsize pp small two some enough last =
    absurd (omega (arith, some))
levels_negative (suc fuel) s p stride size outsize pp small two some enough last =
    elim (Bool-cases (ltb s (stride * size))) [
      | inr done ↦ ([], rw (broadcast_index_levels, done) refl, refl)
      | inl more ↦
          let less : s < stride * size = ground (arith, more) in
          let wide : s * 2 ≤ s * 2 ^ p = mul-le-mul_left s (pow_le 1 p pp) in
          let grown : stride * s ≤ stride * (s * 2 ^ p) =
            mul-le-mul_left stride (omega (arith, wide)) in
          let still : stride * size ≤ stride * (s * 2 ^ p) * 2 ^ p =
            omega (arith, last, mul-le-mul_right (2 ^ p) grown) in
          let (l, h, n) =
            levels_negative fuel (s * 2 ^ p) p stride size outsize pp small
              (omega (arith, wide, two)) (omega (arith, less, enough))
              (omega (arith, wide, two, enough)) still in
          let here = last_indexes (2 ^ p) 1 s outsize in
          let fits : leb (stride * size) (stride * s * 2 ^ p) ≡ true = ground (arith, last) in
          (
            here ++ l,
            level_lem fuel s (s * 2 ^ p) (2 ^ p) stride size outsize l more fits
                (shifted_lem s p small) h,
            all_negative-append here l (last_indexes-negative (2 ^ p) 1 s outsize (omega arith) two)
                n,
          )
    ]

-- The slots of the multiples of the stride
slots_lem :
    (n j b stride : ℕ)
    → 0 < stride
    → 1 ≤ j
    → j + n ≤ suc b
    → (l : List ℕ) × (aux_slots (suc b) stride 1 (multiples n j stride) ≡ ok l)
unfolding aux_slots multiples
slots_lem zero j b stride sp jp h = ([], refl)
slots_lem (suc n) j b stride sp jp h =
    let (l, q) = slots_lem n (suc j) b stride sp (omega arith) (omega (arith, h)) in
    let at : j * stride / stride / 1 ≡ j = omega (arith, mul-div_cancel j sp) in
    let inside : ltb (j - 1) (suc b - 1) ≡ true = ground (arith, h, jp) in
    (((j - 1) ∷ l), rw (at, inside, q))

-- The first level of Broadcast, which is not the last one, rotates by the stride.
first_level :
    (e : Evaluator) (key : ℕ → Bool) (p stride size outsize : ℕ) (c : e.Ct)
    → 1 ≤ p
    → 0 < stride
    → 2 ^ p < size
    → (normalyze_index (pos stride) e.slots e.ring == 0) ≡ false
    → key (normalyze_index (pos stride) e.slots e.ring) ≡ false
    → broadcast_level e key 1 (2 ^ p) stride size outsize c ≡ err missing_key
unfolding broadcast_level multiples rotate_hoisted hoisted
first_level e key p stride size outsize c pp sp large nonzero missing =
    let two : 2 ≤ 2 ^ p = pow_le 1 p pp in
    let n = 2 ^ p - 2 in
    let w1 : stride * 1 ≡ stride = omega arith in
    let w2 : 1 * stride ≡ stride = omega arith in
    let w3 : 2 ^ p * stride * 1 ≡ 2 ^ p * stride = omega arith in
    let w4 : stride * size ≡ size * stride = mul_comm stride size in
    let not_last : leb size (1 * 2 ^ p) ≡ false = ground (arith, large) in
    let lem =
      strides_lem (2 ^ p) (suc n) 1 stride size (2 ^ p) (2 ^ p) sp (omega (arith, two))
        (omega (arith, large)) (omega arith) (inr refl) (omega (arith, two)) in
    let first : strides (2 ^ p) stride stride (size * stride) (2 ^ p * stride)
        ≡ ok (multiples (suc n) 1 stride) =
      ap (λ (i : ℕ). strides (2 ^ p) i stride (size * stride) (2 ^ p * stride)) (sym w2) ∙ lem in
    let (slots, aux) = slots_lem (suc n) 1 (2 ^ p) stride sp (omega arith) (omega (arith, two)) in
    rw (not_last, w1, w3, w4, first, aux, w2, nonzero, missing)

-- Broadcast for a b_step 2 ^ p of a 32-bit int, p at least 1, and an initsize of at least 2 whose
-- quotient outsize / initsize is above b_step and at most b_step * initsize: the list of
-- GetbroadcastRotationIndices is returned and has negative indexes only, and without a key for
-- initsize, where its rotation needs one, Broadcast throws.
pub broadcast-misses :
    (e : Evaluator) (key : ℕ → Bool) (p initsize outsize : ℕ) (c : e.Ct)
    → 1 ≤ p
    → p < 32
    → 2 ≤ initsize
    → 2 ^ p < outsize / initsize
    → outsize / initsize ≤ initsize * 2 ^ p
    → (normalyze_index (pos initsize) e.slots e.ring == 0) ≡ false
    → key (normalyze_index (pos initsize) e.slots e.ring) ≡ false
    → (all_negative
          (value_or (pos 0 ∷ []) (get_broadcast_rotation_indices (2 ^ p) initsize outsize))
        ≡ true)
      × (broadcast e key (2 ^ p) initsize outsize c ≡ err missing_key)
unfolding get_broadcast_rotation_indices broadcast broadcast_levels guard value_or
broadcast-misses e key p initsize outsize c pp small two large last nonzero missing =
    let size = outsize / initsize in
    let check = check-pow p pp in
    let some : (initsize == 0) ≡ false = ground (arith, two) in
    let wide : initsize * size ≤ initsize * (initsize * 2 ^ p) = mul-le-mul_left initsize last in
    let (l, h, n) =
      levels_negative (initsize * size + 1) initsize p initsize size outsize pp small two
        (omega arith) (omega (arith, two))
        (omega (arith, wide, mul_assoc initsize initsize (2 ^ p))) in
    let go : ltb 1 size ≡ true = ground (arith, large, pow_le 1 p pp) in
    let first =
      first_level e key p initsize size outsize c pp (omega (arith, two)) large nonzero missing in
    (
      rw (check, some, h) n,
      let more : size + 1 ≡ suc size = omega arith in
          rw (check, some, more, broadcast_levels, go, first),
    )
