-- ===== src/Approx/Series/Claims.antt =====
-- evalChebyshevSeries computes the Chebyshev series of the slot.
use fideslib.Prelude.{
  ℕ, suc, ◌+◌, ◌-◌, ◌*◌, ◌^◌, ◌≤◌, ◌<◌, ◌≡◌, sym, ap, ◌∙◌, ◌||◌, List, ltb, if◌then◌else◌, length,
  arith, Bool-cases, inl, inr,
}
use fideslib.Ckks.Result.{ok, err, openfhe_error}
use fideslib.Approx.Arithmetic.{Arithmetic, sub, add-sub_cancel}
use fideslib.Approx.Vectors.{at, resize, at-resize, value, value-resize}
use fideslib.Approx.Openfhe.{Openfhe, IsExact, IsDivision, IsFactored}
use fideslib.Approx.Split.{add_power, degree-add_power, length-add_power, divisible_at, divisible}
use fideslib.Approx.Split.Values.{value-add_power}
use fideslib.Approx.Step.{power_facts}
use fideslib.Approx.WeightedSum.Values.{table, length-table}
use fideslib.Approx.Chebyshev.{half}
use fideslib.Approx.Chebyshev.Nodes.{half_zero}
use fideslib.Approx.Chebyshev.Inner.{two_phases-value, two_phases-throws}
use fideslib.Approx.Series.{
  alpha, beta, add_shift, map_linear, map_series, eval_ps, eval_chebyshev_series,
}
use fideslib.Approx.Series.Tables.{
  C, D, at-table, double_at-table, polynomials-table, doublings-table,
}
use fideslib.Approx.Series.Polynomials.{chebyshev}
use fideslib.Approx.Series.Linear.{eval_linear-value}

module _ (r : Arithmetic) (lib : Openfhe r) where
  open r use {R, one, add, neg, mul}

  -- The slot in [-1, 1]: itself for the bounds -1 and 1, else -1 + 2 (s - a) / (b - a)
  unfoldable pub mapped : R → R → R → R
  mapped a b s =
      if lib.not_equal_neg_one a || lib.not_equal_one b
      then add (mul s (alpha r lib a b)) (sub r (neg one) (beta r lib a b))
      else s

module _ (r : Arithmetic) (lib : Openfhe r) (x : IsExact r lib) where
  open r use {R, one, add, neg, mul}

  add_shift_lem : (a b t : R) → add_shift r lib a b t ≡ add t (sub r (neg one) (beta r lib a b))
  unfolding add_shift
  add_shift_lem a b t =
      let shift = sub r (neg one) (beta r lib a b) in
      elim (Bool-cases (lib.not_equal_zero shift)) [
        | inl some ↦ rw some
        | inr none ↦ rw none (sym (ap (add t) (x.zero_test shift none) ∙ r.add-zero t))
      ]

  map_linear_lem : (a b s : R) → map_linear r lib a b s ≡ mapped r lib a b s
  unfolding map_linear mapped
  map_linear_lem a b s = let e = add_shift_lem a b (mul s (alpha r lib a b)) in ground (arith, e)

  map_series_lem : (a b s : R) → map_series r lib a b s ≡ mapped r lib a b s
  unfolding map_series mapped
  map_series_lem a b s =
      let scaled : (if lib.not_equal_one (alpha r lib a b) then mul s (alpha r lib a b) else s)
          ≡ mul s (alpha r lib a b) =
        elim (Bool-cases (lib.not_equal_one (alpha r lib a b))) [
          | inl some ↦ rw some
          | inr same ↦ rw same (sym (ap (mul s) (x.one_test (alpha r lib a b) same) ∙ r.mul-one s))
        ] in
      let e = add_shift_lem a b (mul s (alpha r lib a b)) in rw (scaled, e)

  -- The part from degree 5 on, where the padded series has room for f
  eval_ps-value :
      (k m : ℕ) (f : List R) (y : R)
      → IsDivision r lib (half r lib) (C r lib y) lib.long_division_chebyshev
      → 1 ≤ k
      → 1 ≤ m
      → lib.degree f < k * 2 ^ suc m - k
      → eval_ps r lib k m f y ≡ (
          if divisible_at r lib lib.long_division_chebyshev k
            (suc m)
            (add_power r lib (k * 2 ^ suc m - k) (resize r (suc (lib.degree f)) f))
          then ok (value r (half r lib) (C r lib y) f)
          else err openfhe_error)
  unfolding eval_ps
  eval_ps-value k m f y d kp mp room =
      let B = C r lib y in
      let z = half_zero r lib x B k in
      let e : suc (k - 1) ≡ k = omega (arith, kp) in
      let facts = power_facts k m kp mp in
      let top : 2 * (k * 2 ^ m - k) + k ≡ k * 2 ^ suc m - k = omega (arith, facts) in
      let v = resize r (suc (lib.degree f)) f in
      let ts = rw e at (polynomials-table r lib y (k - 1)) in
      let last : at r (table B 1 k) (length (table B 1 k) - 1) ≡ B k =
        let l = length-table B 1 k in
        let n : 1 + (k - 1) ≡ k = omega (arith, kp) in
        ap (λ (i : ℕ). at r (table B 1 k) (i - 1)) l
        ∙ at-table r B k 1 (k - 1) (omega (arith, kp))
        ∙ ap B n in
      let low : lib.degree v ≤ lib.degree f =
        x.least v (lib.degree f)
          (λ i h. let a = at-resize r (suc (lib.degree f)) i f in ground (arith, a, h)) in
      let f2 = add_power r lib (k * 2 ^ suc m - k) v in
      let same =
        value-resize r (half r lib) B (suc (lib.degree f)) f z (omega arith)
          (λ j h. x.above f j (omega (arith, h))) in
      let padded =
        value-add_power r lib x (half r lib) B z (k * 2 ^ suc m - k) v (omega (arith, room))
          (omega (arith, low, room)) in
      let doubled = doublings-table r lib y k kp m in
      let powers = λ (i : ℕ) (p : 1 ≤ i) (h : i ≤ m).
        let s : 1 + i - 1 ≡ i = omega arith in
        double_at-table (D r lib y k kp) m 1 i p h ∙ ap (λ (j : ℕ). ok (B (k * 2 ^ j))) s in
      let shape : (lib.degree f2 ≡ k * 2 ^ suc m - k) × (length f2 ≡ suc (k * 2 ^ suc m - k)) = (
        degree-add_power r lib x (k * 2 ^ suc m - k) v,
        length-add_power r lib x (k * 2 ^ suc m - k) v,
      ) in
      let t2 = table (D r lib y k kp) 1 m in
      elim (Bool-cases (divisible_at r lib lib.long_division_chebyshev k (suc m) f2)) [
        | inl divides ↦
            let run = two_phases-value r lib x B k kp t2 d m f2 mp powers shape divides in
            rw (divides, ts, last, doubled, top, run, padded, same)
              (ap ok (add-sub_cancel r (value r (half r lib) B f) (B (k * 2 ^ suc m - k))))
        | inr lost ↦
            let run = two_phases-throws r lib x B k kp t2 d m f2 mp powers shape lost in
            rw (lost, ts, last, doubled, top, run)
      ]

-- evalChebyshevSeries on a slot s, with exact arithmetic, for at least two coefficients and bounds a
-- and b, where Degree finds the last coefficient that is not zero, LongDivisionChebyshev throws for a
-- dividend whose dominant coefficient is zero and divides series at that point with a remainder of
-- lower degree where both dominant coefficients are not zero, and ComputeDegreesPS gives k and m of a
-- series with room for the degree. Below degree 5, and above if no second division of the recursion
-- has a dividend whose dominant coefficient is zero, the call returns, in the linear evaluation and
-- in the two passes of the recursion, and the slot is c_0 / 2 plus the sum of c_i T_i(y), where y is
-- s for the bounds -1 and 1, and -1 + 2 (s - a) / (b - a) for others. Otherwise the call ends in
-- the exception of OpenFHE.
pub eval_chebyshev_series-value :
    (r : Arithmetic) (lib : Openfhe r)
    → IsExact r lib
    → IsFactored r lib
    → (f : List r.R) (a b s : r.R)
    → IsDivision r lib (half r lib) (chebyshev r (mapped r lib a b s)) lib.long_division_chebyshev
    → 2 ≤ length f
    → eval_chebyshev_series r lib f a b s ≡ (
        if divisible r lib lib.long_division_chebyshev f
        then ok (value r (half r lib) (chebyshev r (mapped r lib a b s)) f)
        else err openfhe_error)
unfolding eval_chebyshev_series divisible
eval_chebyshev_series-value r lib x n f a b s d len = elim (Bool-cases (ltb (lib.degree f) 5)) [
  | inl low ↦
      rw low
        (eval_linear-value r lib x (mapped r lib a b s) f a b s len (map_linear_lem r lib x a b s))
  | inr high ↦
      let large : 5 ≤ lib.degree f = ground (arith, high) in
      let km = lib.compute_degrees_ps (lib.degree f) in
      let m = km.1 - 1 in
      let big = n.m_big (lib.degree f) large in
      let e : km.1 ≡ suc m = omega (arith, big) in
      let room = rw e at (n.room (lib.degree f) large) in
      rw (high, e, map_series_lem r lib x a b s)
        (eval_ps-value r lib x km.0 m f (mapped r lib a b s) d (n.k_pos (lib.degree f) large)
          (omega (arith, big)) room)
]
