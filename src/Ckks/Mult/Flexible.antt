-- ===== src/Ckks/Mult/Flexible.antt =====
-- mult and square under the flexible techniques, from the alignment of the operands to the result.
use fideslib.Prelude.{
  ℕ, zero, suc, ◌-◌, ◌≤◌, max, ◌≡◌, refl, ◌∙◌, Bool, true, false, ◌&&◌, inl, inr, arith, leb,
  if◌then◌else◌, Bool-cases, ==_refl,
}
use fideslib.Ckks.Result.{Result, ok, err, missing_key}
use fideslib.Ckks.Context.{Context, IsExact, is_flexible}
use fideslib.Ckks.Ciphertext.{Ciphertext, towers, ensure_resident, mult_metadata}
use fideslib.Ckks.Scaling.Steps.{shape}
use fideslib.Ckks.Adjust.Flexible.{IsDegree, one, two, canon, technique_lem}
use fideslib.Ckks.AddSub.Flexible.{comes_down, comes_down_refl}
use fideslib.Ckks.Mult.{
  adopt_key, check_factors, align_factors, mult_limbs, mult_aligned, mult_fuel, mult,
}
use fideslib.Ckks.Mult.Factors.{factors_down_1, factors_down_2, factors_up_1, factors_up_2}

module _ (cc : Context) (e : IsExact cc) (flexible : is_flexible cc.technique ≡ true) where
  abbrev pub product : ℕ → ℕ → ℕ → Result (Ciphertext cc.Factor)
  product key slots t = if cc.has_eval_key key then ok (canon cc key slots t 2) else err missing_key

  no_rescale : (b : Bool) → (true && b && false) ≡ false
  no_rescale true = refl
  no_rescale false = refl

  module _ (key s1 s2 : ℕ) (rescale : Bool) where
    adopt_lem :
        (t1 d1 t2 d2 : ℕ)
        → adopt_key cc (canon cc key s1 t1 d1) (canon cc key s2 t2 d2) ≡ canon cc key s1 t1 d1
    unfolding adopt_key
    adopt_lem t1 d1 t2 d2 = ground arith

    limbs_lem :
        (t : ℕ)
        → cc.has_eval_key key ≡ true
        → mult_limbs cc (canon cc key s1 t 1) (canon cc key s2 t 1) true
          ≡ ok (shape cc key s1 t 1 (cc.real t) (cc.mul (cc.real t) (cc.real t)))
    unfolding mult_limbs
    limbs_lem t h = let le : leb t t ≡ true = ground arith in rw (h, le)

    no_limbs_lem :
        (t : ℕ)
        → cc.has_eval_key key ≡ false
        → mult_limbs cc (canon cc key s1 t 1) (canon cc key s2 t 1) true ≡ err missing_key
    unfolding mult_limbs
    no_limbs_lem t h = rw h

    aligned_lem :
        (t : ℕ)
        → mult_aligned cc (canon cc key s1 t 1) (canon cc key s2 t 1) rescale true
          ≡ product key (max s1 s2) t
    unfolding mult_aligned mult_metadata towers
    aligned_lem t =
        rw ((technique_lem cc.technique flexible).0, (technique_lem cc.technique flexible).1)
          (elim (Bool-cases (cc.has_eval_key key)) [
            | inl h ↦
                rw (
                  limbs_lem t h,
                  h,
                  flexible,
                  ==_refl t,
                  ==_refl key,
                  no_rescale rescale,
                  e.square t,
                )
            | inr h ↦ rw (no_limbs_lem t h, h)
          ])

    -- A step whose alignment leaves the second operand as it is.
    finish :
        (n t1 t2 d1 d2 t : ℕ)
        → align_factors cc (canon cc key s1 t1 d1) (canon cc key s2 t2 d2)
          ≡ ok (false, canon cc key s1 t 1, canon cc key s2 t 1)
        → mult_fuel cc (suc n) (canon cc key s1 t1 d1) (canon cc key s2 t2 d2) rescale true
          ≡ product key (max s1 s2) t
    unfolding mult_fuel check_factors ensure_resident
    finish n t1 t2 d1 d2 t h = rw (
      (technique_lem cc.technique flexible).1,
      flexible,
      ==_refl key,
      adopt_lem t1 d1 t2 d2,
      h,
      aligned_lem t,
    )

    -- A step whose alignment copies the second operand, and the call on the copy.
    repeat :
        (n t1 t2 d1 d2 t : ℕ)
        → align_factors cc (canon cc key s1 t1 d1) (canon cc key s2 t2 d2)
          ≡ ok (true, canon cc key s1 t 1, canon cc key s2 t 1)
        → mult_fuel cc (suc n) (canon cc key s1 t1 d1) (canon cc key s2 t2 d2) rescale true
          ≡ mult_fuel cc n (canon cc key s1 t 1) (canon cc key s2 t 1) rescale true
    unfolding mult_fuel check_factors ensure_resident
    repeat n t1 t2 d1 d2 t h =
        rw
          ((technique_lem cc.technique flexible).1, flexible, ==_refl key, adopt_lem t1 d1 t2 d2, h)

    twice :
        (t1 t2 d1 d2 t : ℕ)
        → 1 ≤ t
        → t ≤ cc.top
        → align_factors cc (canon cc key s1 t1 d1) (canon cc key s2 t2 d2)
          ≡ ok (true, canon cc key s1 t 1, canon cc key s2 t 1)
        → mult cc (canon cc key s1 t1 d1) (canon cc key s2 t2 d2) rescale true
          ≡ product key (max s1 s2) t
    unfolding mult
    twice t1 t2 d1 d2 t g k h =
        repeat 1 t1 t2 d1 d2 t h
        ∙ finish 0 t t 1 1 t
            (factors_down_1 cc e flexible key s1 s2 t t one g g k (comes_down_refl t 1))

    down_case :
        (t1 t2 : ℕ) {d1 d2 : ℕ}
        → IsDegree d1
        → IsDegree d2
        → d1 ≤ t1
        → d2 ≤ t2
        → t1 ≤ cc.top
        → t2 ≤ cc.top
        → comes_down t1 d1 t2 d2 ≡ true
        → mult cc (canon cc key s1 t1 d1) (canon cc key s2 t2 d2) rescale true
          ≡ product key (max s1 s2) (suc t2 - d2)
    unfolding mult
    down_case t1 t2 {d1} a one g1 g2 k1 k2 h =
        let eq : suc t2 - 1 ≡ t2 = omega arith in
        rw eq (finish 1 t1 t2 d1 1 t2 (factors_down_1 cc e flexible key s1 s2 t1 t2 a g1 g2 k1 h))
    down_case t1 zero a two g1 g2 k1 k2 h = ground arith
    down_case t1 (suc t) {d1} a two g1 g2 k1 k2 h =
        let eq : suc (suc t) - 2 ≡ t = omega arith in
        rw eq (
          twice t1 (suc t) d1 2 t (omega arith) (omega arith)
            (factors_down_2 cc e flexible key s1 s2 t1 t a g1 (omega arith) k1 k2 h))

    up_case :
        (t1 t2 : ℕ) {d1 d2 : ℕ}
        → IsDegree d1
        → IsDegree d2
        → d1 ≤ t1
        → d2 ≤ t2
        → t1 ≤ cc.top
        → t2 ≤ cc.top
        → comes_down t1 d1 t2 d2 ≡ false
        → mult cc (canon cc key s1 t1 d1) (canon cc key s2 t2 d2) rescale true
          ≡ product key (max s1 s2) (suc t1 - d1)
    up_case t1 t2 {d1} {d2} one b g1 g2 k1 k2 h =
        let eq : suc t1 - 1 ≡ t1 = omega arith in
        rw eq
          (twice t1 t2 1 d2 t1 g1 k1 (factors_up_1 cc e flexible key s1 s2 t1 t2 b g1 g2 k1 k2 h))
    up_case zero t2 two b g1 g2 k1 k2 h = ground arith
    up_case (suc t) t2 {d2 = d2} two b g1 g2 k1 k2 h =
        let eq : suc (suc t) - 2 ≡ t = omega arith in
        rw eq (
          twice (suc t) t2 2 d2 t (omega arith) (omega arith)
            (factors_up_2 cc e flexible key s1 s2 t t2 b (omega arith) g2 k1 k2 h))

  -- Ciphertext::mult, with the relinearized result, under FLEXIBLEAUTO and FLEXIBLEAUTOEXT, with
  -- exact scaling factors, on two ciphertexts of the same key, each of degree 1 or 2, with at least
  -- as many towers as its degree and the factor of the tables, and neither above the top level.
  -- Without an evaluation key for the tag the call ends in the error that says so. With one it
  -- returns, its recursion ends after at most one step, and no assertion fails: the result has the
  -- level to which both operands come down, one less where that operand has degree 2, it has degree
  -- 2, the tables' factor, limbs at that factor, and the larger of the two numbers of slots.
  pub mult-aligns :
      (key s1 s2 t1 t2 : ℕ) {d1 d2 : ℕ} (rescale : Bool)
      → IsDegree d1
      → IsDegree d2
      → d1 ≤ t1
      → d2 ≤ t2
      → t1 ≤ cc.top
      → t2 ≤ cc.top
      → mult cc (canon cc key s1 t1 d1) (canon cc key s2 t2 d2) rescale true
        ≡ product key (max s1 s2) (if comes_down t1 d1 t2 d2 then suc t2 - d2 else suc t1 - d1)
  unfolding mult
  mult-aligns key s1 s2 t1 t2 {d1} {d2} rescale a b g1 g2 k1 k2 =
      elim (Bool-cases (comes_down t1 d1 t2 d2)) [
        | inl down ↦ down_case key s1 s2 rescale t1 t2 a b g1 g2 k1 k2 down ∙ rw down
        | inr up ↦ up_case key s1 s2 rescale t1 t2 a b g1 g2 k1 k2 up ∙ rw up
      ]
