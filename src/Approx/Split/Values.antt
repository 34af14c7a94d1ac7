-- ===== src/Approx/Split/Values.antt =====
-- The values of powers, constants and sums with a power of the basis.
use fideslib.Prelude.{
  ℕ, zero, suc, ◌+◌, ◌≤◌, ◌<◌, ◌≡◌, refl, sym, ap, ◌∙◌, List, [], ◌∷◌, leb, arith, Bool-cases, inl,
  inr,
}
use fideslib.Approx.Arithmetic.{Arithmetic, sub, zero-add, one-mul, neg-mul, zero-mul}
use fideslib.Approx.Vectors.{
  at, resize, modify, unit_at, length-resize, at-resize, terms, value, value-resize, value-modify,
}
use fideslib.Approx.Openfhe.{Openfhe, IsExact}
use fideslib.Approx.Split.{subtract_power, add_power}

module _ (r : Arithmetic) (lib : Openfhe r) where
  open r use {R, add, neg, mul, add-zero}

  -- Writing over a zero adds.
  modify-set :
      (w : R) (i : ℕ) (f : List R)
      → at r f i ≡ r.zero
      → modify r i (λ c. w) f ≡ modify r i (λ c. add c w) f
  unfolding modify at
  modify-set w i [] h = refl
  modify-set w zero (c ∷ cs) h =
      ap (λ (x : R). x ∷ cs) (sym (ap (λ (x : R). add x w) h ∙ zero-add r w))
  modify-set w (suc i) (c ∷ cs) h = ap (λ (xs : List R). c ∷ xs) (modify-set w i cs h)

  module _ (x : IsExact r lib) (bias : R → R) (B : ℕ → R) (bias_zero : bias r.zero ≡ r.zero) where
    terms-unit : (n i : ℕ) → terms r bias B i (unit_at r n) ≡ B (n + i)
    unfolding terms unit_at
    terms-unit zero i =
        let e : 0 + i ≡ i = omega arith in rw e (add-zero (mul r.one (B i)) ∙ one-mul r (B i))
    terms-unit (suc n) i =
        let e : suc n + i ≡ n + suc i = omega arith in
        rw (e, zero-mul r (B i), zero-add r (terms r bias B (suc i) (unit_at r n)))
          (terms-unit n (suc i))

    pub value-unit : (n : ℕ) → 1 ≤ n → value r bias B (unit_at r n) ≡ B n
    unfolding value unit_at
    value-unit zero h = ground (arith, h)
    value-unit (suc n) h =
        let e : n + 1 ≡ suc n = omega arith in
        rw (bias_zero, zero-add r (terms r bias B 1 (unit_at r n)), ← e) (terms-unit n 1)

    -- A series of which only the constant term is not zero
    pub value-constant :
        (c : R) (cs : List R) → lib.degree (c ∷ cs) ≡ 0 → value r bias B (c ∷ cs) ≡ bias c
    unfolding value resize terms
    value-constant c cs h =
        sym (
          value-resize r bias B 1 (c ∷ cs) bias_zero (omega arith)
            (λ j le. x.above (c ∷ cs) j (omega (arith, h, le))))
        ∙ add-zero (bias c)

    neg_one : (y : R) → mul (neg r.one) y ≡ neg y
    neg_one y = neg-mul r r.one y ∙ ap neg (one-mul r y)

    pub value-subtract_power :
        (kk : ℕ) (f : List R)
        → 1 ≤ kk
        → value r bias B (subtract_power r lib kk f) ≡ sub r (value r bias B f) (B kk)
    unfolding subtract_power
    value-subtract_power kk f pos = elim (Bool-cases (leb kk (lib.degree f))) [
      | inl large ↦
          let v = resize r (suc (lib.degree f)) f in
          let len = length-resize r (suc (lib.degree f)) f in
          let same =
            value-resize r bias B (suc (lib.degree f)) f bias_zero (omega arith)
              (λ j h. x.above f j (omega (arith, h))) in
          rw large (
            value-modify r bias B (neg r.one) kk v (ground (arith, len, large)) pos
            ∙ rw (same, neg_one (B kk)))
      | inr small ↦
          let v = resize r (suc kk) f in
          let len = length-resize r (suc kk) f in
          let same =
            value-resize r bias B (suc kk) f bias_zero (omega arith)
              (λ j h. x.above f j (ground (arith, h, small))) in
          let free : at r v kk ≡ r.zero =
            let e = at-resize r (suc kk) kk f in
            let z = x.above f kk (ground (arith, small)) in ground (arith, e, z) in
          rw (small, modify-set (neg r.one) kk v free)
            (value-modify r bias B (neg r.one) kk v (omega (arith, len)) pos
              ∙ rw (same, neg_one (B kk)))
    ]

    pub value-add_power :
        (kk : ℕ) (f : List R)
        → 1 ≤ kk
        → lib.degree f < kk
        → value r bias B (add_power r lib kk f) ≡ add (value r bias B f) (B kk)
    unfolding add_power
    value-add_power kk f pos h =
        let v = resize r (suc kk) f in
        let len = length-resize r (suc kk) f in
        let same =
          value-resize r bias B (suc kk) f bias_zero (omega arith)
            (λ j le. x.above f j (omega (arith, le, h))) in
        let free : at r v kk ≡ r.zero =
          let e = at-resize r (suc kk) kk f in let z = x.above f kk h in ground (arith, e, z) in
        rw (modify-set r.one kk v free)
          (value-modify r bias B r.one kk v (omega (arith, len)) pos ∙ rw (same, one-mul r (B kk)))
