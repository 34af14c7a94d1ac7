-- ===== src/Approx/ModReduction/Claims.antt =====
-- The iterations of the double angle raise the degree of a Chebyshev polynomial to a power of two.
use fideslib.Prelude.{
  ℕ, zero, suc, ◌+◌, ◌*◌, ◌^◌, ◌≤◌, ◌≡◌, refl, sym, ap, ◌∙◌, true, false, List, length, arith,
}
use fideslib.Ckks.Result.{ok}
use fideslib.Approx.Arithmetic.{Arithmetic, mul_left_comm, add-sub_cancel}
use fideslib.Approx.Vectors.{value}
use fideslib.Approx.Openfhe.{Openfhe, IsExact, IsDivision, IsFactored}
use fideslib.Approx.Split.{divisible}
use fideslib.Approx.Chebyshev.{half}
use fideslib.Approx.Series.Polynomials.{chebyshev, chebyshev_zero, chebyshev_one, chebyshev-product}
use fideslib.Approx.Series.Claims.{mapped, eval_chebyshev_series-value}
use fideslib.Approx.Series.{eval_chebyshev_series}
use fideslib.Approx.ModReduction.{
  double_angle, apply_double_angle_iterations, numeral, mult_int_scalar, approx_mod_reduction,
  approx_mod_reduction_sparse,
}

module _ (r : Arithmetic) (scale : ℕ → r.R) (c : r.R)
    (squares : (j : ℕ) → scale (suc j) ≡ r.mul (scale j) (scale j)) where
  open r use {R, one, add, neg, mul, add_assoc, mul_assoc, mul_comm, mul-one, mul-add}

  -- 2 T_n^2 = T_{2n} + 1
  double :
      (n : ℕ)
      → add (mul (chebyshev r c n) (chebyshev r c n)) (mul (chebyshev r c n) (chebyshev r c n))
        ≡ add (chebyshev r c (2 * n)) one
  double n =
      let e : 0 + n ≡ n = omega arith in
      let e' : 0 + 2 * n ≡ 2 * n = omega arith in
      rw (e, e', chebyshev_zero r c) at (chebyshev-product r c n 0)

  squared : (a t : R) → mul (mul a t) (mul a t) ≡ mul (mul a a) (mul t t)
  squared a t = simp (mul_assoc, mul_comm, mul_left_comm r)

  round_lem :
      (j n : ℕ)
      → (let p = mul (mul (scale j) (chebyshev r c n)) (mul (scale j) (chebyshev r c n)) in
          add (add p p) (neg (scale (suc j))))
        ≡ mul (scale (suc j)) (chebyshev r c (2 * n))
  round_lem j n =
      let t = chebyshev r c n in
      let b = scale (suc j) in
      let p : mul (mul (scale j) t) (mul (scale j) t) ≡ mul b (mul t t) =
        squared (scale j) t ∙ ap (λ (x : R). mul x (mul t t)) (sym (squares j)) in
      rw p (
        ap (λ (x : R). add x (neg b))
          (sym (mul-add b (mul t t) (mul t t))
            ∙ ap (mul b) (double n)
            ∙ mul-add b (chebyshev r c (2 * n)) one
            ∙ ap (add (mul b (chebyshev r c (2 * n)))) (mul-one b))
        ∙ add-sub_cancel r (mul b (chebyshev r c (2 * n))) b)

  double_angle_lem :
      (n j : ℕ)
      → double_angle r scale n (suc j) (mul (scale j) (chebyshev r c (2 ^ j)))
        ≡ mul (scale (j + n)) (chebyshev r c (2 ^ (j + n)))
  unfolding double_angle
  double_angle_lem zero j = let e : j + 0 ≡ j = omega arith in rw e
  double_angle_lem (suc n) j =
      let e : suc j + n ≡ j + suc n = omega arith in
      let two : 2 * 2 ^ j ≡ 2 ^ suc j = omega arith in
      rw (round_lem j (2 ^ j), two) (rw e at (double_angle_lem n (suc j)))

  -- The slot is scale 0 * c at the start.
  pub angle-value :
      (its : ℕ)
      → apply_double_angle_iterations r scale its (mul (scale 0) c)
        ≡ mul (scale its) (chebyshev r c (2 ^ its))
  unfolding apply_double_angle_iterations
  angle-value its =
      let e : 0 + its ≡ its = omega arith in
      let one_le : 2 ^ 0 ≡ 1 = omega arith in
      ap (λ (t : R). double_angle r scale its 1 (mul (scale 0) t)) (sym (chebyshev_one r c))
      ∙ rw (e, one_le) at (double_angle_lem its 0)

module _ (r : Arithmetic) (lib : Openfhe r) (x : IsExact r lib) (n : IsFactored r lib)
    (first : lib.not_equal_neg_one (r.neg r.one) ≡ false)
    (second : lib.not_equal_one r.one ≡ false) where
  -- Between -1 and 1 the slot is not moved.
  series-value :
      (f : List r.R) (s : r.R)
      → IsDivision r lib (half r lib) (chebyshev r s) lib.long_division_chebyshev
      → 2 ≤ length f
      → divisible r lib lib.long_division_chebyshev f ≡ true
      → eval_chebyshev_series r lib f (r.neg r.one) r.one s
        ≡ ok (value r (half r lib) (chebyshev r s) f)
  unfolding mapped
  series-value f s d len divides =
      let same : mapped r lib (r.neg r.one) r.one s ≡ s = rw (first, second) refl in
      let run = eval_chebyshev_series-value r lib x n f (r.neg r.one) r.one s in
      rw (same, divides) at run d len

-- approxModReduction and approxModReductionSparse on slots s and si, with exact arithmetic and in the
-- setting of evalChebyshevSeries, that no second division of the recursion has a dividend whose
-- dominant coefficient is zero included, for tests that find -1 and 1 equal to themselves and scalars
-- each of which is the square of the one before it: where the series is scale_0 c at s and
-- scale_0 ci at si, both return, and with r iterations the slots are
-- post * scale_r * (T_{2^r}(c) + T_{2^r}(ci) u), for u the value of X^(N/2), and
-- post * scale_r * T_{2^r}(c).
pub approx_mod_reduction-doubles :
    (r : Arithmetic) (lib : Openfhe r)
    → IsExact r lib
    → IsFactored r lib
    → lib.not_equal_neg_one (r.neg r.one) ≡ false
    → lib.not_equal_one r.one ≡ false
    → (scale : ℕ → r.R) → ((j : ℕ) → scale (suc j) ≡ r.mul (scale j) (scale j))
    → (its : ℕ) (f : List r.R) (u s si c ci : r.R) (post : ℕ)
    → IsDivision r lib (half r lib) (chebyshev r s) lib.long_division_chebyshev
    → IsDivision r lib (half r lib) (chebyshev r si) lib.long_division_chebyshev
    → 2 ≤ length f
    → divisible r lib lib.long_division_chebyshev f ≡ true
    → value r (half r lib) (chebyshev r s) f ≡ r.mul (scale 0) c
    → value r (half r lib) (chebyshev r si) f ≡ r.mul (scale 0) ci
    → (approx_mod_reduction r lib scale its f u s si post
        ≡ ok (
            r.mul (numeral r post) (
              r.mul
                (scale its)
                (r.add (chebyshev r c (2 ^ its)) (r.mul (chebyshev r ci (2 ^ its)) u)))))
      × (approx_mod_reduction_sparse r lib scale its f s post
          ≡ ok (r.mul (numeral r post) (r.mul (scale its) (chebyshev r c (2 ^ its)))))
unfolding approx_mod_reduction approx_mod_reduction_sparse mult_int_scalar
approx_mod_reduction-doubles r lib x n first second scale squares its f u s si c ci post d di len
      divides h hi =
    let run = series-value r lib x n first second f s d len divides in
    let run_i = series-value r lib x n first second f si di len divides in
    let angle = angle-value r scale c squares its in
    let angle_i = angle-value r scale ci squares its in
    let t = chebyshev r c (2 ^ its) in
    let ti = chebyshev r ci (2 ^ its) in
    let joined : r.add (r.mul (scale its) t) (r.mul (r.mul (scale its) ti) u)
        ≡ r.mul (scale its) (r.add t (r.mul ti u)) =
      ap (r.add (r.mul (scale its) t)) (r.mul_assoc (scale its) ti u)
      ∙ sym (r.mul-add (scale its) t (r.mul ti u)) in
    (
      rw (run, run_i, h, hi, angle, angle_i)
          (ap (λ (v : r.R). ok (r.mul (numeral r post) v)) joined),
      rw (run, h, angle) refl,
    )
