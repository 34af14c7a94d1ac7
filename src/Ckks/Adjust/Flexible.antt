-- ===== src/Ckks/Adjust/Flexible.antt =====
-- adjustScaleAndLevel under the flexible techniques, on a ciphertext with the factor that the
-- tables give for its level and degree, in every branch.
use fideslib.Prelude.{
  ℕ, zero, suc, ◌-◌, ◌≤◌, ◌<◌, ◌≡◌, refl, subst, ◌∙◌, Bool, true, false, ◌&&◌, ◌||◌, inl, inr,
  arith, ltb, leb, ◌==◌, if◌then◌else◌, Bool-cases,
}
use fideslib.Ckks.Result.{ok, ◌>>◌}
use fideslib.Ckks.Context.{
  Context, Technique, no_rescale, fixed_manual, fixed_auto, flexible_auto, flexible_auto_ext,
  IsExact, assert, is_flexible, is_fixed_auto, is_fixed_manual,
}
use fideslib.Ckks.Ciphertext.{Ciphertext}
use fideslib.Ckks.Scaling.{table_factor, mult_scalar, to_degree_one}
use fideslib.Ckks.Scaling.Steps.{shape, mult_shape}
use fideslib.Ckks.Adjust.{align, check_target, adjust_flexible, adjust_scale_and_level}
use fideslib.Ckks.Adjust.Align.{align_1_2_lem, align_2_2_lem, align_1_1_lem, align_2_1_lem}

-- Degree 1 or 2, and a level that the degree leaves above 0 or at it
pub data IsDegree : ℕ → Type 0 where
  one : IsDegree 1
  two : IsDegree 2

-- A resident ciphertext whose recorded factor is the tables', and whose limbs are at that factor.
abbrev pub canon : (cc : Context) → ℕ → ℕ → ℕ → ℕ → Ciphertext cc.Factor
canon cc key slots t d = shape cc key slots t d (table_factor cc t d) (table_factor cc t d)

pub technique_lem :
    (t : Technique) → is_flexible t ≡ true → (is_fixed_manual t ≡ false) × (is_fixed_auto t ≡ false)
technique_lem no_rescale h = ground arith
technique_lem fixed_manual h = ground arith
technique_lem fixed_auto h = ground arith
technique_lem flexible_auto h = (refl, refl)
technique_lem flexible_auto_ext h = (refl, refl)

module _ (cc : Context) (e : IsExact cc) where
  pred_suc : (t : ℕ) → suc t - 1 ≡ t
  pred_suc t = omega arith

  assert_lem : (b : Bool) → b ≡ true → assert cc b ≡ ok tt
  assert_lem b h = rw h

  check_target_lem :
      (t : ℕ) {d : ℕ} → IsDegree d → d ≤ t → check_target cc d t (table_factor cc t d) ≡ ok tt
  unfolding check_target
  check_target_lem t one h =
      rw (e.eqb_refl (cc.real t)) (elim (Bool-cases cc.debug) [ inl x ↦ rw x | inr x ↦ rw x ])
  check_target_lem zero two h = ground arith
  check_target_lem (suc zero) two h = ground arith
  check_target_lem (suc (suc t)) two h =
      rw
        (
          pred_suc (suc t),
          e.reduce (suc t),
          e.close_refl (cc.big (suc (suc t))),
          e.eqb_refl (cc.big (suc (suc t))),
        )
        (elim (Bool-cases cc.debug) [ inl x ↦ ground arith | inr x ↦ ground arith ])

  passes : {A : Type 0} {x : A} (b : Bool) → (assert cc (b || true) >> ok x) ≡ ok x
  passes true = refl
  passes false = refl

  module _ (key slots : ℕ) where
    align_lem :
        (t1 t2 : ℕ) {d1 d2 : ℕ}
        → IsDegree d1
        → IsDegree d2
        → t2 < t1
        → t1 ≤ cc.top
        → align cc (canon cc key slots t1 d1) d2 t2 (table_factor cc t2 d2)
          ≡ ok (canon cc key slots t2 d2)
    unfolding align
    align_lem (suc t1) t2 one one h k = align_1_1_lem cc e key slots t2 t1 (omega arith) k
    align_lem t1 t2 one two h k = align_1_2_lem cc e key slots t2 t1 h k
    align_lem (suc t1) t2 two one h k = align_2_1_lem cc e key slots t2 t1 (omega arith) k
    align_lem (suc t1) t2 two two h k = align_2_2_lem cc e key slots t2 t1 (omega arith) k
    align_lem zero t2 a b h k = ground arith

    to_degree_one_lem :
        (t : ℕ) (f s : cc.Factor)
        → to_degree_one cc (shape cc key slots t 1 f s) ≡ ok (shape cc key slots t 1 f s)
    unfolding to_degree_one
    to_degree_one_lem t f s = ground arith

    raise_lem :
        (t : ℕ)
        → t ≤ cc.top
        → mult_scalar cc (canon cc key slots t 1) cc.one false ≡ ok (canon cc key slots t 2)
    unfolding mult_scalar
    raise_lem t k = rw (
      to_degree_one_lem t (cc.real t) (cc.real t),
      mult_shape cc key slots t 1 (cc.real t) (cc.real t) cc.one k,
      e.mul-one (cc.real t),
      e.square t,
    )

    more_lem :
        (t1 t2 : ℕ) {d1 d2 : ℕ}
        → IsDegree d1
        → IsDegree d2
        → t2 < t1
        → t1 ≤ cc.top
        → adjust_flexible cc (canon cc key slots t1 d1) d2 t2 (table_factor cc t2 d2)
          ≡ ok (true, canon cc key slots t2 d2)
    unfolding adjust_flexible
    more_lem t1 t2 {d1} {d2} a b h k =
        let more : ltb t2 t1 ≡ true = ground arith in
        rw (more, align_lem t1 t2 a b h k, e.eqb_refl (table_factor cc t2 d2)) (passes (leb 3 d2))

    same_lem :
        (t : ℕ) {d1 d2 : ℕ}
        → IsDegree d1
        → IsDegree d2
        → t ≤ cc.top
        → adjust_flexible cc (canon cc key slots t d1) d2 t (table_factor cc t d2)
          ≡ ok (
              if leb d1 d2
              then (true, canon cc key slots t d2)
              else (false, canon cc key slots t d1))
    unfolding adjust_flexible
    same_lem t one one k = ground arith
    same_lem t one two k = let irr : ltb t t ≡ false = ground arith in rw (irr, raise_lem t k)
    same_lem t two one k = ground arith
    same_lem t two two k = ground arith

    fewer_lem :
        (t1 t2 : ℕ) {d1 d2 : ℕ}
        → IsDegree d1
        → IsDegree d2
        → t1 < t2
        → adjust_flexible cc (canon cc key slots t1 d1) d2 t2 (table_factor cc t2 d2)
          ≡ ok (false, canon cc key slots t1 d1)
    unfolding adjust_flexible
    fewer_lem t1 t2 a b h =
        let more : ltb t2 t1 ≡ false = ground arith in
        let less : ltb t1 t2 ≡ true = ground arith in rw (more, less)

    -- Under FLEXIBLEAUTO and FLEXIBLEAUTOEXT, with exact scaling factors, for an operand at t1
    -- towers with degree d1 and a target of t2 towers and degree d2, each degree 1 or 2 and at most
    -- the number of towers that it goes with, each with the factor of the tables, and the operand
    -- not above the top level: adjustScaleAndLevel returns. It answers true, with the operand at
    -- exactly the target's level, degree and factor and its limbs at that factor, when the operand
    -- has more towers, or as many and a degree that is not higher; otherwise it answers false and
    -- leaves the operand unchanged.
    pub adjust_scale_and_level-aligns :
        (t1 t2 : ℕ) {d1 d2 : ℕ}
        → is_flexible cc.technique ≡ true
        → IsDegree d1
        → IsDegree d2
        → d1 ≤ t1
        → d2 ≤ t2
        → t1 ≤ cc.top
        → adjust_scale_and_level cc (canon cc key slots t1 d1) d2 t2 (table_factor cc t2 d2)
          ≡ ok (
              if ltb t2 t1 || (t1 == t2 && leb d1 d2)
              then (true, canon cc key slots t2 d2)
              else (false, canon cc key slots t1 d1))
    unfolding adjust_scale_and_level
    adjust_scale_and_level-aligns t1 t2 {d1} {d2} h a b g1 g2 k =
        let tl = technique_lem cc.technique h in
        rw (tl.0, tl.1, check_target_lem t2 b g2)
          (elim (Bool-cases (ltb t2 t1)) [
            | inl more ↦ rw (more, more_lem t1 t2 a b (ground arith) k)
            | inr less ↦ elim (Bool-cases (t1 == t2)) [
              | inl same ↦
                  let eq : t1 ≡ t2 = ground arith in
                  subst
                    (λ (t : ℕ).
                      adjust_flexible cc (canon cc key slots t1 d1) d2 t (table_factor cc t d2)
                      ≡ ok (
                          if ltb t t1 || (t1 == t && leb d1 d2)
                          then (true, canon cc key slots t d2)
                          else (false, canon cc key slots t1 d1)))
                    eq
                    (same_lem t1 a b k
                      ∙ (let irr : ltb t1 t1 ≡ false = ground arith in
                          let here : (t1 == t1) ≡ true = ground arith in rw (irr, here)))
              | inr other ↦ fewer_lem t1 t2 a b (ground arith) ∙ rw (less, other)
            ]
          ])
