-- ===== src/Approx/Powers.antt =====
-- src/CKKS/ApproxModEval.cu: evalPowers and evalPolyWithPrecomp from degree 5 on. The powers of the
-- slot, in both ways to multiply them, and the recursion innerEvalPolyPS over them.
pub mod Sums
pub mod Inner
pub mod Tables
pub mod Fused
pub mod Sparse
pub mod Dispatch
pub mod Claims
use fideslib.Prelude.{
  ℕ, zero, suc, ◌+◌, ◌-◌, ◌*◌, ◌/◌, ◌%◌, ◌^◌, Bool, true, false, not, List, [], ◌∷◌, ◌++◌, ltb,
  ◌==◌, if◌then◌else◌, length,
}
use fideslib.Prelude.Bits.{and_bits}
use fideslib.Ckks.Result.{Result, ok, err, ◌>>=◌, out_of_range}
use fideslib.Approx.Arithmetic.{Arithmetic, sub}
use fideslib.Approx.Vectors.{at, resize}
use fideslib.Approx.Openfhe.{Openfhe}
use fideslib.Approx.Split.{add_power, split}
use fideslib.Approx.Chebyshev.{double_at}

module _ (r : Arithmetic) (lib : Openfhe r) where
  open r use {R, add, mul}
  open lib use {degree, not_equal_one, long_division_poly, compute_degrees_ps}

  -- SeriesPowers: powers2 holds x^{k*2^i} from index 1 on, since powers2[0] is a placeholder.
  pub record SeriesPowers : Type 0 where
    pub powers : List R
    pub powers2 : List R
    pub power2km1 : R
    pub k : ℕ
    pub m : ℕ

  -- powers[i - 1] from the powers before it. The test `i & 1 == 0` of the fused mode reads as
  -- `i & (1 == 0)`.
  unfoldable pub next_power : (fused : Bool) (i power_of2 rem : ℕ) → List R → R
  next_power fused i power_of2 rem ts =
      let square_of = λ (j : ℕ). mul (at r ts j) (at r ts j) in
      if rem == 0
      then square_of (power_of2 / 2 - 1)
      else if not fused
      then mul (at r ts (power_of2 - 1)) (at r ts (rem - 1))
      else if not (and_bits 32 i 0 == 0)
      then square_of (i / 2 - 1)
      else mul (at r ts (i / 2 - 1)) (at r ts (i / 2 - 1 + i % 2))

  -- The loop over i, for n rounds
  unfoldable pub powers_loop : (fused : Bool) (n i power_of2 rem : ℕ) → List R → List R
  powers_loop fused zero i power_of2 rem ts = ts
  powers_loop fused (suc n) i power_of2 rem ts =
      let wraps = suc rem == power_of2 in
      powers_loop fused n (suc i) (if wraps then power_of2 * 2 else power_of2)
        (if wraps then 0 else suc rem) (ts ++ next_power fused i power_of2 rem ts ∷ [])

  -- Each round squares: powers2[i] for i = 1, 2, ... and power2km1
  unfoldable pub squarings : (n : ℕ) → (t km1 : R) → List R × R
  squarings zero t km1 = ([], km1)
  squarings (suc n) t km1 =
      let t' = mul t t in let rest = squarings n t' (mul km1 t') in (t' ∷ rest.0, rest.1)

  -- evalPowersPS
  unfoldable pub eval_powers_ps : R → (degree : ℕ) (fused : Bool) → SeriesPowers
  eval_powers_ps x n fused =
      let km = compute_degrees_ps n in
      let ts = powers_loop fused (km.0 - 1) 2 2 0 (x ∷ []) in
      let last = at r ts (km.0 - 1) in
      let squared = squarings (km.1 - 1) last last in
      record { powers = ts; powers2 = squared.0; power2km1 = squared.1; k = km.0; m = km.1 }

  weighted_products : (limit : ℕ) → List R → List R → Result R
  weighted_products zero ws ts = ok r.zero
  weighted_products (suc n) [] ts = err out_of_range
  weighted_products (suc n) (w ∷ ws) [] = err out_of_range
  weighted_products (suc n) (w ∷ ws) (t ∷ ts) =
      weighted_products n ws ts >>= λ rest. ok (add (mul t w) rest)

  -- evalPartialLinearWSum, which is called with a limit of 1 or more
  unfoldable pub partial_sum : List R → List R → ℕ → Result R
  unfolding weighted_products
  partial_sum ts [] limit = err out_of_range
  partial_sum ts (w ∷ ws) limit = weighted_products limit ws ts

  -- The value of a part whose degree is k: powers[k - 1], its constant term and the terms between
  unfoldable pub leading_node : (k : ℕ) → List R → List R → Result R
  leading_node k ts f =
      let g = resize r k f in
      double_at ts k >>= λ t.
      let base = add t (at r f 0) in
      if ltb 0 (degree g) then (partial_sum ts g (degree g) >>= λ w. ok (add base w)) else ok base

  -- cu of a step, from c and t = powers2[m - 1]
  unfoldable pub correction : List R → List R → R → Result R
  correction ts c t =
      if degree c == 0
      then ok (add t (at r c 0))
      else if degree c == 1
      then (double_at ts 1 >>= λ x.
          ok (
            add (if not_equal_one (at r c 1) then add (mul x (at r c 1)) t else add t x)
              (at r c 0)))
      else (partial_sum ts c (degree c) >>= λ w. ok (add (add t w) (at r c 0)))

  module _ (k : ℕ) (ts t2 : List R) where
    -- innerEvalPolyPS, with m - 1 for the argument m of a step
    unfoldable pub inner_eval_poly : ℕ → List R → Result R
    inner_eval_poly zero f = err out_of_range
    inner_eval_poly (suc m) f = split r lib long_division_poly k m f >>= λ (q, s2, c).
        (elim (ltb k (degree q)) [ true ↦ inner_eval_poly m q | false ↦ leading_node k ts q ]
          >>= λ qu.
              elim (ltb k (degree s2)) [
                | true ↦ inner_eval_poly m s2
                | false ↦ leading_node k ts s2
              ]
              >>= λ su. double_at t2 m >>= λ t. correction ts c t >>= λ cu. ok (add (mul cu qu) su))

  -- What evalPolyPSWithPrecomp and evalPolyPSWithPrecompFused do around their recursion `inner`
  unfoldable pub eval_padded :
      (inner : ℕ → List R → List R → ℕ → List R → Result R) → SeriesPowers → List R → Result R
  eval_padded inner sp f = elim sp.m [
    | zero ↦ err out_of_range
    | suc m ↦
        let top = 2 * (sp.k * 2 ^ m - sp.k) + sp.k in
        let f2 = add_power r lib top (resize r (suc (degree f)) f) in
        inner sp.k sp.powers sp.powers2 (suc m) f2 >>= λ out. ok (sub r out sp.power2km1)
  ]

  unfoldable pub eval_poly_ps : SeriesPowers → List R → Result R
  eval_poly_ps = eval_padded inner_eval_poly
