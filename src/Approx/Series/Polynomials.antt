-- ===== src/Approx/Series/Polynomials.antt =====
-- The Chebyshev polynomials of a number, and how a product of two of them splits.
use fideslib.Prelude.{ℕ, zero, suc, ◌+◌, ◌*◌, ◌≡◌, refl, sym, ap, ◌∙◌, arith}
use fideslib.Approx.Arithmetic.{
  Arithmetic, sub, add_left_comm, add-mul, one-mul, sub-add_cancel, add_cancel,
}

module _ (r : Arithmetic) (y : r.R) where
  open r use {R, one, add, neg, mul, add_assoc, add_comm, mul_assoc, mul_comm, mul-one, mul-add}

  -- T_0 = 1, T_1 = y, T_{n+2} = 2 y T_{n+1} - T_n
  unfoldable pub chebyshev : ℕ → R
  chebyshev zero = one
  chebyshev (suc zero) = y
  chebyshev (suc (suc n)) =
      sub r (add (mul y (chebyshev (suc n))) (mul y (chebyshev (suc n)))) (chebyshev n)

  pub chebyshev_zero : chebyshev 0 ≡ one
  unfolding chebyshev
  chebyshev_zero = refl

  pub chebyshev_one : chebyshev 1 ≡ y
  unfolding chebyshev
  chebyshev_one = refl

  twice : R → R
  twice a = add a a

  recurrence :
      (n : ℕ) → add (chebyshev (suc (suc n))) (chebyshev n) ≡ twice (mul y (chebyshev (suc n)))
  unfolding chebyshev twice
  recurrence n = sub-add_cancel r _ _

  -- The step of the product law, from the instances that it needs
  product_step :
      (a b p q s t u v w z : R)
      → add a b ≡ twice (mul y p)
      → twice (mul p q) ≡ add u v
      → twice (mul b q) ≡ add w z
      → add s w ≡ twice (mul y u)
      → add z t ≡ twice (mul y v)
      → twice (mul a q) ≡ add s t
  unfolding twice
  product_step a b p q s t u v w z h1 h2 h3 h4 h5 =
      let joined : add (twice (mul a q)) (twice (mul b q)) ≡ twice (mul (add a b) q) =
        simp (add-mul r, add_assoc, add_comm, add_left_comm r) in
      let inner : twice (mul (twice (mul y p)) q) ≡ twice (mul y (twice (mul p q))) =
        simp (add-mul r, mul-add, mul_assoc) in
      let parted : twice (mul y (add u v)) ≡ add (twice (mul y u)) (twice (mul y v)) =
        simp (mul-add, add_assoc, add_comm, add_left_comm r) in
      let sorted : add (add s w) (add z t) ≡ add (add s t) (add w z) =
        simp (add_assoc, add_comm, add_left_comm r) in
      add_cancel r (twice (mul a q)) (add s t) (twice (mul b q)) (
        joined
        ∙ ap (λ (c : R). twice (mul c q)) h1
        ∙ inner
        ∙ ap (λ (c : R). twice (mul y c)) h2
        ∙ parted
        ∙ ap (λ (c : R). add c (twice (mul y v))) (sym h4)
        ∙ ap (add (add s w)) (sym h5)
        ∙ sorted
        ∙ ap (add (add s t)) (sym h3))

  -- 2 T_m T_{n+m} = T_{n+2m} + T_n
  pub chebyshev-product :
      (m n : ℕ)
      → add (mul (chebyshev m) (chebyshev (n + m))) (mul (chebyshev m) (chebyshev (n + m)))
        ≡ add (chebyshev (n + 2 * m)) (chebyshev n)
  unfolding twice
  chebyshev-product zero n =
      let e : n + 0 ≡ n = omega arith in rw (e, chebyshev_zero, one-mul r (chebyshev n))
  chebyshev-product (suc zero) n =
      let e : n + 1 ≡ suc n = omega arith in
      let e' : n + 2 ≡ suc (suc n) = omega arith in rw (e, e', chebyshev_one) (sym (recurrence n))
  chebyshev-product (suc (suc m)) n =
      let p : suc n + suc m ≡ n + suc (suc m) = omega arith in
      let b : suc (suc n) + m ≡ n + suc (suc m) = omega arith in
      let u : suc n + 2 * suc m ≡ suc (n + 2 * suc m) = omega arith in
      let s : suc (suc (n + 2 * suc m)) ≡ n + 2 * suc (suc m) = omega arith in
      let w : suc (suc n) + 2 * m ≡ n + 2 * suc m = omega arith in
      let hp = rw (p, u) at (chebyshev-product (suc m) (suc n)) in
      let hb = rw (b, w) at (chebyshev-product m (suc (suc n))) in
      let hs = rw s at (recurrence (n + 2 * suc m)) in
      product_step (chebyshev (suc (suc m))) (chebyshev m) (chebyshev (suc m))
        (chebyshev (n + suc (suc m))) (chebyshev (n + 2 * suc (suc m))) (chebyshev n)
        (chebyshev (suc (n + 2 * suc m))) (chebyshev (suc n)) (chebyshev (n + 2 * suc m))
        (chebyshev (suc (suc n))) (recurrence m) hp hb hs (recurrence n)
