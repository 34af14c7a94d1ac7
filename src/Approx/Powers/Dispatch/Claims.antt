-- ===== src/Approx/Powers/Dispatch/Claims.antt =====
-- evalPolyWithPrecomp on the powers of evalPowers computes the polynomial of the slot.
use fideslib.Prelude.{
  suc, ◌≤◌, ◌≡◌, Bool, if◌then◌else◌, true, false, List, ltb, length, arith, Bool-cases, inl, inr,
}
use fideslib.Ckks.Result.{ok, err, openfhe_error, ◌>>=◌, >>=-eq-ok}
use fideslib.Approx.Arithmetic.{Arithmetic}
use fideslib.Approx.Vectors.{value}
use fideslib.Approx.Openfhe.{Openfhe, IsExact, IsDivision, IsMonic, IsFactored}
use fideslib.Approx.Split.{divisible, divisible_low}
use fideslib.Approx.Powers.Tables.{power}
use fideslib.Approx.Powers.Claims.{eval_poly_ps-value, eval_poly_ps_fused-value}
use fideslib.Approx.Powers.Sparse.{eval_powers_linear, eval_poly_linear}
use fideslib.Approx.Powers.Sparse.Values.{eval_poly_linear-value}
use fideslib.Approx.Powers.Dispatch.{entries, eval_powers, eval_full, eval_poly_with_precomp}

-- evalPolyWithPrecomp on the powers of evalPowers, on a slot s with exact arithmetic, for at least
-- two coefficients of which the last is not zero, where Degree finds that one, LongDivisionPoly
-- throws for a dividend whose dominant coefficient is zero and divides polynomials at s, where both
-- dominant coefficients are not zero, with a remainder of lower degree and a quotient that keeps
-- leading coefficients of one, and ComputeDegreesPS gives k and m of a polynomial with room for the
-- degree. Below degree 5, and above if no second division of the recursion has a dividend whose
-- dominant coefficient is zero, the calls return, with the sparse powers below degree 5 and with the
-- recursion above, fused or not, and the slot is the sum of c_i s^i. Otherwise they end in the
-- exception of OpenFHE.
pub eval_poly_with_precomp-value :
    (r : Arithmetic) (lib : Openfhe r)
    → IsExact r lib
    → IsFactored r lib
    → IsMonic r lib lib.long_division_poly
    → (f : List r.R) (s : r.R) (fused : Bool)
    → IsDivision r lib (λ c. c) (power r s) lib.long_division_poly
    → 1 ≤ lib.degree f
    → length f ≡ suc (lib.degree f)
    → (eval_powers r lib s f fused >>= λ ps. eval_poly_with_precomp r lib ps f fused) ≡ (
        if divisible r lib lib.long_division_poly f
        then ok (value r (λ c. c) (power r s) f)
        else err openfhe_error)
unfolding eval_powers eval_full eval_poly_with_precomp entries
eval_poly_with_precomp-value r lib x n monic f s fused d pos len =
    elim (Bool-cases (ltb (lib.degree f) 5)) [
      | inl low ↦
          let (ts, powers, sum) =
            >>=-eq-ok (eval_powers_linear r lib s f) (λ ts. eval_poly_linear r lib ts f)
              (eval_poly_linear-value r lib x s f len pos (ground (arith, low))) in
          let fits = divisible_low r lib lib.long_division_poly f low in rw (low, powers, fits) sum
      | inr high ↦ elim (Bool-cases fused) [
        | inl yes_fused ↦
            rw (high, yes_fused)
              (eval_poly_ps_fused-value r lib x n monic f s true d (ground (arith, high)))
        | inr plain ↦
            rw (high, plain) (eval_poly_ps-value r lib x n monic f s false d (ground (arith, high)))
      ]
    ]
