-- ===== src/Ckks/PlainOps/Product.antt =====
-- multPt under the flexible techniques, from the alignment of the operands to the product.
use fideslib.Prelude.{
  ℕ, zero, suc, ◌-◌, ◌≤◌, max, ◌≡◌, refl, ◌∙◌, Bool, true, false, ◌&&◌, inl, inr, arith,
  if◌then◌else◌, ltb, Bool-cases,
}
use fideslib.Ckks.Result.{ok}
use fideslib.Ckks.Context.{Context, IsExact, is_flexible}
use fideslib.Ckks.Context.Laws.{big-reduce}
use fideslib.Ckks.Ciphertext.{ensure_resident}
use fideslib.Ckks.Adjust.Flexible.{IsDegree, one, two, canon, technique_lem}
use fideslib.Ckks.AddSub.Flexible.{comes_down, comes_down_refl, comes_down_sym}
use fideslib.Ckks.Mult.Factors.{rescale_lem}
use fideslib.Ckks.Plaintext
use fideslib.Ckks.Plaintext.Flexible.{plain}
use fideslib.Ckks.PlainOps.{
  mult_pt_metadata, check_plain, mult_pt_aligned, mult_pt_checked, mult_pt_fuel, mult_pt,
}
use fideslib.Ckks.PlainOps.Flexible.{adjust_plain_lem, stay_lem, lower_lem}

module _ (cc : Context) (e : IsExact cc) (flexible : is_flexible cc.technique ≡ true) where
  no_rescale : (b : Bool) → (b && false) ≡ false
  no_rescale true = refl
  no_rescale false = refl

  -- A plaintext of degree 2 is rescaled to the tables' factor of the next level.
  lower_degree : (s t : ℕ) → Plaintext.rescale cc (plain cc s (suc t) 2) ≡ ok (plain cc s t 1)
  unfolding Plaintext.rescale
  lower_degree s t =
      let pred : suc t - 1 ≡ t = omega arith in
      let positive : ltb 0 (suc t) ≡ true = ground arith in rw (pred, big-reduce cc e t, positive)

  module _ (key s1 s2 : ℕ) (rescale : Bool) where
    checked_lem :
        (t : ℕ)
        → mult_pt_checked cc (canon cc key s1 t 1) (plain cc s2 t 1) rescale
          ≡ ok (canon cc key (max s1 s2) t 2)
    unfolding mult_pt_checked mult_pt_aligned mult_pt_metadata
    checked_lem t = rw ((technique_lem cc.technique flexible).0, no_rescale rescale, e.square t)

    finish :
        (n t1 t2 : ℕ) {d1 : ℕ}
        → IsDegree d1
        → d1 ≤ t1
        → 1 ≤ t2
        → t1 ≤ cc.top
        → comes_down t1 d1 t2 1 ≡ true
        → mult_pt_fuel cc (suc n) (canon cc key s1 t1 d1) (plain cc s2 t2 1) rescale false
          ≡ ok (canon cc key (max s1 s2) t2 2)
    unfolding mult_pt_fuel check_plain ensure_resident
    finish n t1 t2 a g1 g2 k down = rw (
      (technique_lem cc.technique flexible).1,
      flexible,
      adjust_plain_lem cc e flexible key s1 s2 t1 t2 a one g1 g2 k down,
      checked_lem t2,
    )

    -- The plaintext has degree 2, and the ciphertext comes down to it: both are rescaled.
    down_2 :
        (n t1 t : ℕ) {d1 : ℕ}
        → IsDegree d1
        → d1 ≤ t1
        → 1 ≤ t
        → t1 ≤ cc.top
        → suc t ≤ cc.top
        → comes_down t1 d1 (suc t) 2 ≡ true
        → mult_pt_fuel cc (suc n) (canon cc key s1 t1 d1) (plain cc s2 (suc t) 2) rescale false
          ≡ mult_pt_fuel cc n (canon cc key s1 t 1) (plain cc s2 t 1) rescale false
    unfolding mult_pt_fuel check_plain ensure_resident
    down_2 n t1 t a g1 g2 k k2 down = rw (
      (technique_lem cc.technique flexible).1,
      flexible,
      adjust_plain_lem cc e flexible key s1 s2 t1 (suc t) a two g1 (omega (arith, g2)) k down,
      lower_lem cc e flexible key s1 s2 (suc t) (suc t) two two (omega (arith, g2))
          (omega (arith, g2)) (comes_down_refl (suc t) 2),
      rescale_lem cc e flexible key s1 t k2,
      lower_degree s2 t,
    )

    up_1 :
        (n t1 t2 : ℕ) {d2 : ℕ}
        → IsDegree d2
        → 1 ≤ t1
        → d2 ≤ t2
        → t1 ≤ cc.top
        → comes_down t1 1 t2 d2 ≡ false
        → mult_pt_fuel cc (suc n) (canon cc key s1 t1 1) (plain cc s2 t2 d2) rescale false
          ≡ mult_pt_fuel cc n (canon cc key s1 t1 1) (plain cc s2 t1 1) rescale false
    unfolding mult_pt_fuel check_plain ensure_resident
    up_1 n t1 t2 {d2} b g1 g2 k up = rw (
      (technique_lem cc.technique flexible).1,
      flexible,
      stay_lem cc e flexible key s1 s2 t1 t2 one b g1 g2 k up,
      lower_lem cc e flexible key s1 s2 t1 t2 one b g1 g2 (comes_down_sym t1 1 t2 d2 up),
    )

    up_2 :
        (n t t2 : ℕ) {d2 : ℕ}
        → IsDegree d2
        → 1 ≤ t
        → d2 ≤ t2
        → suc t ≤ cc.top
        → comes_down (suc t) 2 t2 d2 ≡ false
        → mult_pt_fuel cc (suc n) (canon cc key s1 (suc t) 2) (plain cc s2 t2 d2) rescale false
          ≡ mult_pt_fuel cc n (canon cc key s1 t 1) (plain cc s2 t 1) rescale false
    unfolding mult_pt_fuel check_plain ensure_resident
    up_2 n t t2 {d2} b g1 g2 k up = rw (
      (technique_lem cc.technique flexible).1,
      flexible,
      stay_lem cc e flexible key s1 s2 (suc t) t2 two b (omega (arith, g1)) g2 k up,
      lower_lem cc e flexible key s1 s2 (suc t) t2 two b (omega (arith, g1)) g2
          (comes_down_sym (suc t) 2 t2 d2 up),
      rescale_lem cc e flexible key s1 t k,
      lower_degree s2 t,
    )

    again :
        (t : ℕ)
        → 1 ≤ t
        → t ≤ cc.top
        → mult_pt_fuel cc 1 (canon cc key s1 t 1) (plain cc s2 t 1) rescale false
          ≡ ok (canon cc key (max s1 s2) t 2)
    again t g k = finish 0 t t one g g k (comes_down_refl t 1)

    down_case :
        (t1 t2 : ℕ) {d1 d2 : ℕ}
        → IsDegree d1
        → IsDegree d2
        → d1 ≤ t1
        → d2 ≤ t2
        → t1 ≤ cc.top
        → t2 ≤ cc.top
        → comes_down t1 d1 t2 d2 ≡ true
        → mult_pt cc (canon cc key s1 t1 d1) (plain cc s2 t2 d2) rescale false
          ≡ ok (canon cc key (max s1 s2) (suc t2 - d2) 2)
    unfolding mult_pt
    down_case t1 t2 a one g1 g2 k1 k2 h =
        let eq : suc t2 - 1 ≡ t2 = omega arith in rw eq (finish 1 t1 t2 a g1 g2 k1 h)
    down_case t1 zero a two g1 g2 k1 k2 h = ground arith
    down_case t1 (suc t) a two g1 g2 k1 k2 h =
        let eq : suc (suc t) - 2 ≡ t = omega arith in
        rw eq (
          down_2 1 t1 t a g1 (omega (arith, g2)) k1 k2 h
          ∙ again t (omega (arith, g2)) (omega (arith, k2)))

    up_case :
        (t1 t2 : ℕ) {d1 d2 : ℕ}
        → IsDegree d1
        → IsDegree d2
        → d1 ≤ t1
        → d2 ≤ t2
        → t1 ≤ cc.top
        → comes_down t1 d1 t2 d2 ≡ false
        → mult_pt cc (canon cc key s1 t1 d1) (plain cc s2 t2 d2) rescale false
          ≡ ok (canon cc key (max s1 s2) (suc t1 - d1) 2)
    unfolding mult_pt
    up_case t1 t2 one b g1 g2 k h =
        let eq : suc t1 - 1 ≡ t1 = omega arith in rw eq (up_1 1 t1 t2 b g1 g2 k h ∙ again t1 g1 k)
    up_case zero t2 two b g1 g2 k h = ground arith
    up_case (suc t) t2 two b g1 g2 k h =
        let eq : suc (suc t) - 2 ≡ t = omega arith in
        rw eq (
          up_2 1 t t2 b (omega (arith, g1)) g2 k h ∙ again t (omega (arith, g1)) (omega (arith, k)))

    -- Ciphertext::multPt, with its check of the scales, under FLEXIBLEAUTO and FLEXIBLEAUTOEXT,
    -- with exact scaling factors, on a ciphertext and a plaintext of degree 1 or 2, each with the
    -- factor of the tables and at least as many towers as its degree, and neither above the top
    -- level: the call returns, its recursion ends after at most one step, and no assertion fails.
    -- The result has the level to which both operands come down, one less where the operand with
    -- that level has degree 2, it has degree 2, the tables' factor, limbs at that factor, and the
    -- larger of the two numbers of slots, whether a rescale is asked for or not.
    pub mult_pt-aligns :
        (t1 t2 : ℕ) {d1 d2 : ℕ}
        → IsDegree d1
        → IsDegree d2
        → d1 ≤ t1
        → d2 ≤ t2
        → t1 ≤ cc.top
        → t2 ≤ cc.top
        → mult_pt cc (canon cc key s1 t1 d1) (plain cc s2 t2 d2) rescale false
          ≡ ok (
              canon cc key
                (max s1 s2)
                (if comes_down t1 d1 t2 d2 then suc t2 - d2 else suc t1 - d1)
                2)
    mult_pt-aligns t1 t2 {d1} {d2} a b g1 g2 k1 k2 = elim (Bool-cases (comes_down t1 d1 t2 d2)) [
      | inl down ↦ down_case t1 t2 a b g1 g2 k1 k2 down ∙ rw down
      | inr up ↦ up_case t1 t2 a b g1 g2 k1 up ∙ rw up
    ]
