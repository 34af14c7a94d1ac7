-- ===== src/Approx/ModReduction.antt =====
-- src/CKKS/ApproxModEval.cu: approxModReduction and approxModReductionSparse, the Chebyshev series and
-- the iterations of the double angle.
pub mod Claims
use fideslib.Prelude.{ℕ, zero, suc, List}
use fideslib.Ckks.Result.{Result, ok, ◌>>=◌}
use fideslib.Approx.Arithmetic.{Arithmetic}
use fideslib.Approx.Openfhe.{Openfhe}
use fideslib.Approx.Series.{eval_chebyshev_series}

module _ (r : Arithmetic) where
  open r use {R, one, add, neg, mul}

  -- Rounds of applyDoubleAngleIterations from j on. `scale` j stands for
  -- std::pow(2.0 * M_PI, -std::pow(2.0, j - r)) in r iterations.
  unfoldable pub double_angle : (scale : ℕ → R) (n j : ℕ) → R → R
  double_angle scale zero j s = s
  double_angle scale (suc n) j s =
      let p = mul s s in double_angle scale n (suc j) (add (add p p) (neg (scale j)))

  unfoldable pub apply_double_angle_iterations : (scale : ℕ → R) (its : ℕ) → R → R
  apply_double_angle_iterations scale its s = double_angle scale its 1 s

  unfoldable pub numeral : ℕ → R
  numeral zero = r.zero
  numeral (suc n) = add one (numeral n)

  unfoldable pub mult_int_scalar : R → ℕ → R
  mult_int_scalar s op = mul (numeral op) s

  module _ (lib : Openfhe r) (scale : ℕ → R) (its : ℕ) (f : List R) where
    -- The slots of ctxtEnc and ctxtEncI; `monomial` is the value of X^(N/2) at the slot.
    unfoldable pub approx_mod_reduction : (monomial : R) → R → R → (post : ℕ) → Result R
    approx_mod_reduction monomial s si post =
        eval_chebyshev_series r lib f (neg one) one si >>= λ yi.
        eval_chebyshev_series r lib f (neg one) one s >>= λ y.
        let angle = apply_double_angle_iterations scale its y in
        let angle_i = apply_double_angle_iterations scale its yi in
        ok (mult_int_scalar (add angle (mul angle_i monomial)) post)

    unfoldable pub approx_mod_reduction_sparse : R → (post : ℕ) → Result R
    approx_mod_reduction_sparse s post = eval_chebyshev_series r lib f (neg one) one s >>= λ y.
        ok (mult_int_scalar (apply_double_angle_iterations scale its y) post)
