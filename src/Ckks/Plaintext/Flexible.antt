-- ===== src/Ckks/Plaintext/Flexible.antt =====
-- Plaintext::adjustScaleAndLevel under the flexible techniques, in every branch.
use fideslib.Prelude.{
  ℕ, zero, suc, ◌-◌, ◌≤◌, ◌<◌, ◌≡◌, subst, ◌∙◌, true, false, inl, inr, arith, ltb, leb,
  if◌then◌else◌, Bool-cases,
}
use fideslib.Ckks.Result.{ok}
use fideslib.Ckks.Context.{Context, IsExact, is_flexible}
use fideslib.Ckks.Scaling.{table_factor}
use fideslib.Ckks.Adjust.Flexible.{IsDegree, one, two, technique_lem}
use fideslib.Ckks.AddSub.Flexible.{comes_down}
use fideslib.Ckks.Plaintext.{
  Plaintext, mult_scalar, align, adjust_flexible, check_target, adjust_scale_and_level,
}
use fideslib.Ckks.Plaintext.Align.{
  mult_at, align_1_2_lem, align_2_2_lem, align_1_1_lem, align_2_1_lem,
}

-- A plaintext with the tables' factor
abbrev pub plain : (cc : Context) → ℕ → ℕ → ℕ → Plaintext cc.Factor
plain cc slots t d = record {
  c0 = record { towers = t; mod_up = false };
  noise_factor = table_factor cc t d;
  noise_level = d;
  slots = slots;
  scale = table_factor cc t d;
}

module _ (cc : Context) (e : IsExact cc) (slots : ℕ) where
  pred_suc : (t : ℕ) → suc t - 1 ≡ t
  pred_suc t = omega arith

  check_target_lem : (t : ℕ) {d : ℕ} → IsDegree d → d ≤ t → check_target cc d t ≡ ok tt
  unfolding check_target
  check_target_lem t one h = elim (Bool-cases cc.debug) [ inl x ↦ rw x | inr x ↦ rw x ]
  check_target_lem zero two h = ground arith
  check_target_lem (suc zero) two h = ground arith
  check_target_lem (suc (suc t)) two h =
      rw (pred_suc (suc t), e.reduce (suc t), e.eqb_refl (cc.big (suc (suc t))))
        (elim (Bool-cases cc.debug) [ inl x ↦ ground arith | inr x ↦ ground arith ])

  align_lem :
      (t1 t2 : ℕ) {d1 d2 : ℕ}
      → IsDegree d1
      → IsDegree d2
      → t2 < t1
      → align cc (plain cc slots t1 d1) d2 t2 (table_factor cc t2 d2) ≡ ok (plain cc slots t2 d2)
  unfolding align
  align_lem zero t2 a b h = ground arith
  align_lem (suc t1) t2 one one h = align_1_1_lem cc e slots t2 t1 (omega (arith, h))
  align_lem (suc t1) t2 one two h = align_1_2_lem cc e slots t2 t1 (omega (arith, h))
  align_lem (suc t1) t2 two one h = align_2_1_lem cc e slots t2 t1 (omega (arith, h))
  align_lem (suc t1) t2 two two h = align_2_2_lem cc e slots t2 t1 (omega (arith, h))

  raise_lem :
      (t : ℕ)
      → mult_scalar cc (plain cc slots (suc t) 1) cc.one false ≡ ok (plain cc slots (suc t) 2)
  raise_lem t =
      let r = cc.real (suc t) in
      mult_at cc e slots t 1 r r cc.one ∙ rw (e.mul-one r, e.square (suc t))

  same_lem :
      (t : ℕ) {d1 d2 : ℕ}
      → IsDegree d1
      → IsDegree d2
      → d1 ≤ t
      → adjust_flexible cc (plain cc slots t d1) d2 t (table_factor cc t d2)
        ≡ ok (if leb d1 d2 then (true, plain cc slots t d2) else (false, plain cc slots t d1))
  unfolding adjust_flexible
  same_lem t one one g = ground arith
  same_lem zero one two g = ground arith
  same_lem (suc t) one two g =
      let irr : ltb (suc t) (suc t) ≡ false = ground arith in rw (irr, raise_lem t)
  same_lem t two one g = ground arith
  same_lem t two two g = ground arith

  more_lem :
      (t1 t2 : ℕ) {d1 d2 : ℕ}
      → IsDegree d1
      → IsDegree d2
      → ltb t2 t1 ≡ true
      → adjust_flexible cc (plain cc slots t1 d1) d2 t2 (table_factor cc t2 d2)
        ≡ ok (true, plain cc slots t2 d2)
  unfolding adjust_flexible
  more_lem t1 t2 a b more = rw (more, align_lem t1 t2 a b (ground (arith, more)))

  -- Plaintext::adjustScaleAndLevel under FLEXIBLEAUTO and FLEXIBLEAUTOEXT, with exact scaling
  -- factors, on a plaintext of degree 1 or 2 with the factor of the tables, for a target of degree 1
  -- or 2 with the factor of the tables, each with at least as many towers as its degree, where the
  -- plaintext has more levels than the target, or as many and no higher degree: the call returns,
  -- without a failed assertion, and answers true, with the plaintext at exactly the target's level,
  -- degree and factor and its limbs at that factor.
  pub adjust_plaintext-aligns :
      (t1 t2 : ℕ) {d1 d2 : ℕ}
      → is_flexible cc.technique ≡ true
      → IsDegree d1
      → IsDegree d2
      → d1 ≤ t1
      → d2 ≤ t2
      → comes_down t1 d1 t2 d2 ≡ true
      → adjust_scale_and_level cc (plain cc slots t1 d1) d2 t2 (table_factor cc t2 d2)
        ≡ ok (true, plain cc slots t2 d2)
  unfolding adjust_scale_and_level
  adjust_plaintext-aligns t1 t2 {d1} {d2} h a b g1 g2 down =
      rw
        (
          (technique_lem cc.technique h).0,
          (technique_lem cc.technique h).1,
          check_target_lem t2 b g2,
        )
        (elim (Bool-cases (ltb t2 t1)) [
          | inl more ↦ more_lem t1 t2 a b more
          | inr less ↦
              let eq : t1 ≡ t2 = ground (arith, down, less) in
              let le : leb d1 d2 ≡ true = ground (arith, down, less) in
              subst
                (λ (t : ℕ).
                  adjust_flexible cc (plain cc slots t1 d1) d2 t (table_factor cc t d2)
                  ≡ ok (true, plain cc slots t d2))
                eq (same_lem t1 a b g1 ∙ rw le)
        ])
