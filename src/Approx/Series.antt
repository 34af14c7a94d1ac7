-- ===== src/Approx/Series.antt =====
-- src/CKKS/ApproxModEval.cu: evalChebyshevSeries, the map to [-1, 1], the Chebyshev polynomials of the
-- slot, the linear evaluation below degree 5, and the two passes of the recursion from there on.
pub mod Polynomials
pub mod Tables
pub mod Linear
pub mod Claims
use fideslib.Prelude.{
  ℕ, zero, suc, ◌+◌, ◌-◌, ◌*◌, ◌/◌, ◌%◌, ◌^◌, Bool, true, false, not, ◌&&◌, ◌||◌, List, [], ◌∷◌,
  ◌++◌, ltb, ◌==◌, if◌then◌else◌, length,
}
use fideslib.Ckks.Result.{Result, ok, err, ◌>>=◌, ◌>>◌, guard, out_of_range}
use fideslib.Approx.Arithmetic.{Arithmetic, sub}
use fideslib.Approx.Vectors.{at, resize}
use fideslib.Approx.Openfhe.{Openfhe}
use fideslib.Approx.Split.{add_power}
use fideslib.Approx.Chebyshev.{half, two_phases}

module _ (r : Arithmetic) (lib : Openfhe r) where
  open r use {R, one, add, neg, mul, div}
  open lib use {degree, not_equal_zero, not_equal_one, not_equal_neg_one, compute_degrees_ps}

  abbrev pub alpha : R → R → R
  alpha a b = div (add one one) (sub r b a)

  abbrev pub beta : R → R → R
  beta a b = mul a (alpha a b)

  add_shift : R → R → R → R
  add_shift a b t =
      let shift = sub r (neg one) (beta a b) in if not_equal_zero shift then add t shift else t

  -- T[0] of evalChebyPolysLinear
  unfoldable pub map_linear : R → R → R → R
  unfolding add_shift
  map_linear a b x =
      if not (not_equal_neg_one a) && not (not_equal_one b)
      then x
      else add_shift a b (mul x (alpha a b))

  -- T[0] of evalChebyshevSeries
  unfoldable pub map_series : R → R → R → R
  unfolding add_shift
  map_series a b x =
      if not_equal_neg_one a || not_equal_one b
      then add_shift a b (if not_equal_one (alpha a b) then mul x (alpha a b) else x)
      else x

  pub double_product : R → R → R
  double_product s t = let p = mul s t in add p p

  -- T[i - 1] from the polynomials before it
  unfoldable pub next_polynomial : ℕ → List R → R
  unfolding double_product
  next_polynomial i ts =
      if i % 2 == 1
      then sub r (double_product (at r ts (i / 2 - 1)) (at r ts (i / 2))) (at r ts 0)
      else add (double_product (at r ts (i / 2 - 1)) (at r ts (i / 2 - 1))) (neg one)

  -- The loop over i, for n rounds
  unfoldable pub polynomials : (n i : ℕ) → List R → List R
  polynomials zero i ts = ts
  polynomials (suc n) i ts = polynomials n (suc i) (ts ++ next_polynomial i ts ∷ [])

  -- Each round doubles: T2[i] for i = 1, 2, ... and T2km1
  unfoldable pub doublings : (n : ℕ) → (last t km1 : R) → List R × R
  unfolding double_product
  doublings zero last t km1 = ([], km1)
  doublings (suc n) last t km1 =
      let t' = add (double_product t t) (neg one) in
      let rest = doublings n last t' (sub r (double_product km1 t') last) in (t' ∷ rest.0, rest.1)

  -- result.add(T[i] * coefficients[i + 1]) for n rounds from i on
  unfoldable pub add_terms : (n i : ℕ) → List R → List R → R → R
  add_terms zero i ts f acc = acc
  add_terms (suc n) i ts f acc =
      add_terms n (suc i) ts f (
        if not_equal_zero (at r f (suc i)) then add acc (mul (at r ts i) (at r f (suc i))) else acc)

  -- evalChebyshevSeriesLinear; fewer than two coefficients would be read beyond the end.
  unfoldable pub eval_linear : List R → R → R → R → Result R
  eval_linear f a b x =
      let k = length f - 2 in
      let ts = polynomials k 2 (map_linear a b x ∷ []) in
      guard (not (ltb (length f) 2)) out_of_range
      >> ok (add (add_terms k 0 ts f (mul (at r ts k) (at r f (suc k)))) (half r lib (at r f 0)))

  -- The part from degree 5 on, with k, m - 1 and the slot y in [-1, 1]
  unfoldable pub eval_ps : (k m : ℕ) → List R → R → Result R
  eval_ps k m f y =
      let ts = polynomials (k - 1) 2 (y ∷ []) in
      let last = at r ts (length ts - 1) in
      let doubled = doublings m last last last in
      let top = 2 * (k * 2 ^ m - k) + k in
      let f2 = add_power r lib top (resize r (suc (degree f)) f) in
      two_phases r lib k ts doubled.0 (suc m) f2 >>= λ out. ok (sub r out doubled.1)

  unfoldable pub eval_chebyshev_series : List R → R → R → R → Result R
  eval_chebyshev_series f a b x =
      let km = compute_degrees_ps (degree f) in
      if ltb (degree f) 5
      then eval_linear f a b x
      else elim km.1 [ zero ↦ err out_of_range | suc m ↦ eval_ps km.0 m f (map_series a b x) ]
