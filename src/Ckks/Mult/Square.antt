-- ===== src/Ckks/Mult/Square.antt =====
-- square under the flexible techniques.
use fideslib.Prelude.{ℕ, zero, suc, ◌-◌, ◌≤◌, max, ◌≡◌, ◌∙◌, Bool, true, arith}
use fideslib.Ckks.Context.{Context, IsExact, is_flexible}
use fideslib.Ckks.Ciphertext.{ensure_resident}
use fideslib.Ckks.Adjust.Flexible.{IsDegree, one, two, canon, technique_lem}
use fideslib.Ckks.Mult.{mult, square}
use fideslib.Ckks.AddSub.Flexible.{comes_down_refl}
use fideslib.Ckks.Mult.Factors.{rescale_lem}
use fideslib.Ckks.Mult.Flexible.{product, mult-aligns}

module _ (cc : Context) (e : IsExact cc) (flexible : is_flexible cc.technique ≡ true) where
  product_lem :
      (key s t : ℕ) (rescale : Bool)
      → 1 ≤ t
      → t ≤ cc.top
      → mult cc (canon cc key s t 1) (canon cc key s t 1) rescale true
        ≡ product cc e flexible key s t
  product_lem key s t rescale g k =
      let down = comes_down_refl t 1 in
      let m : max s s ≡ s = omega arith in
      let eq : suc t - 1 ≡ t = omega arith in
      mult-aligns cc e flexible key s s t t rescale one one g g k k ∙ rw (down, m, eq)

  -- Ciphertext::square under FLEXIBLEAUTO and FLEXIBLEAUTOEXT, with exact scaling factors, on a
  -- ciphertext of degree 1 or 2 with at least as many towers as its degree, not above the top
  -- level, and the factor of the tables: without an evaluation key for its tag the call ends in
  -- that error; with one it returns, at the same level for degree 1 and one level lower for degree
  -- 2, with degree 2, the tables' factor, limbs at that factor, and the same number of slots.
  pub square-aligns :
      (key s t : ℕ) {d : ℕ} (rescale : Bool)
      → IsDegree d
      → d ≤ t
      → t ≤ cc.top
      → square cc (canon cc key s t d) rescale ≡ product cc e flexible key s (suc t - d)
  unfolding square ensure_resident
  square-aligns key s t rescale one g k =
      let eq : suc t - 1 ≡ t = omega arith in
      rw ((technique_lem cc.technique flexible).1, flexible, eq) (product_lem key s t rescale g k)
  square-aligns key s zero rescale two g k = ground arith
  square-aligns key s (suc t) rescale two g k =
      let eq : suc (suc t) - 2 ≡ t = omega arith in
      rw
        ((technique_lem cc.technique flexible).1, flexible, eq, rescale_lem cc e flexible key s t k)
        (product_lem key s t rescale (omega (arith, g)) (omega (arith, k)))
