-- ===== src/Approx/Chebyshev.antt =====
-- src/CKKS/ApproxModEval.cu: evalChebyshevSeries, with the linear evaluation below degree 5 and the
-- recursion of Paterson and Stockmeyer above, in one pass and in the passes RECORD and REMAINING.
pub mod Nodes
pub mod Tree
pub mod Inner
use fideslib.Prelude.{
  ℕ, zero, suc, ◌+◌, ◌-◌, ◌*◌, ◌/◌, ◌%◌, ◌^◌, Bool, true, false, not, ◌&&◌, ◌||◌, List, [], ◌∷◌,
  ◌++◌, ltb, ◌==◌, if◌then◌else◌, length,
}
use mathlib.Core.List.{reverse, foldl}
use fideslib.Ckks.Result.{Result, ok, err, ◌>>=◌, out_of_range}
use fideslib.Approx.Arithmetic.{Arithmetic, sub}
use fideslib.Approx.Vectors.{at, resize, modify, unit_at}
use fideslib.Approx.Openfhe.{Openfhe}
use fideslib.Approx.Split.{split}
use fideslib.Approx.WeightedSum.{weighted_sum, batched_sums}

-- T2[i] for the list from index 1 on: T2[0] is a placeholder without limbs.
unfoldable pub double_at {ℓ} : {A : Type ℓ} → List A → ℕ → Result A
double_at ts zero = err out_of_range
double_at [] (suc i) = err out_of_range
double_at (t ∷ ts) (suc zero) = ok t
double_at (t ∷ ts) (suc (suc i)) = double_at ts (suc i)

-- back() and pop_back() of rev_result_ciphertexts, which is written with its last element first
unfoldable pub pop {ℓ} : {A : Type ℓ} → List A → Result (A × List A)
pop [] = err out_of_range
pop (w ∷ ws) = ok (w, ws)

-- for (i = 0; i < ws.size(); ++i) rev_result_ciphertexts.emplace_back(ws[ws.size() - 1 - i])
unfoldable pub pushed {ℓ} : {A : Type ℓ} → List A → List A
pushed ws = foldl (λ st w. w ∷ st) [] (reverse ws)

module _ (r : Arithmetic) (lib : Openfhe r) where
  open r use {R, add, neg, mul, div}
  open lib use {degree, not_equal_zero, long_division_chebyshev}

  unfoldable pub half : R → R
  half c = div c (add r.one r.one)

  abbrev divide : List R → List R → Result (List R × List R)
  divide = long_division_chebyshev

  -- WSum of a terminal node
  unfoldable pub node_sum : List R → List R → Result R
  node_sum ts f = weighted_sum r lib ts f (half (at r f 0)) (length f - 1)

  -- The recorded weights of a terminal node: copy[0] /= 2.0
  unfoldable pub recorded : List R → List (List R)
  recorded f = modify r 0 half f ∷ []

  module _ (k : ℕ) (ts t2 : List R) where
    -- innerEvalChebyshevPS in mode FULL, with m - 1 for the argument m of a step
    unfoldable pub inner_eval : ℕ → List R → Result R
    inner_eval zero f = err out_of_range
    inner_eval (suc m) f = split r lib divide k m f >>= λ (q, s2, c).
        (elim (ltb k (degree q)) [ true ↦ inner_eval m q | false ↦ node_sum ts q ] >>= λ qu.
        elim (ltb k (degree s2)) [ true ↦ inner_eval m s2 | false ↦ node_sum ts s2 ] >>= λ su.
        double_at t2 m >>= λ t.
        (if ltb 0 (degree c)
          then (node_sum ts c >>= λ w. ok (add w t))
          else ok (add t (half (at r c 0))))
        >>= λ cu. ok (add (mul cu qu) su))

    -- Mode RECORD: the constants
    unfoldable pub inner_record : ℕ → List R → Result (List (List R))
    inner_record zero f = err out_of_range
    inner_record (suc m) f = split r lib divide k m f >>= λ (q, s2, c).
        (elim (ltb k (degree q)) [ true ↦ inner_record m q | false ↦ ok (recorded q) ] >>= λ qs.
        elim (ltb k (degree s2)) [ true ↦ inner_record m s2 | false ↦ ok (recorded s2) ] >>= λ ss.
        ok (qs ++ (ss ++ (if ltb 0 (degree c) then recorded c else []))))

    -- Mode REMAINING: the result and what is left of the stack
    unfoldable pub inner_remaining : ℕ → List R → List R → Result (R × List R)
    inner_remaining zero f stack = err out_of_range
    inner_remaining (suc m) f stack = split r lib divide k m f >>= λ (q, s2, c).
        (elim (ltb k (degree q)) [ true ↦ inner_remaining m q stack | false ↦ pop stack ] >>= λ qu.
        elim (ltb k (degree s2)) [ true ↦ inner_remaining m s2 qu.1 | false ↦ pop qu.1 ] >>= λ su.
        double_at t2 m >>= λ t.
        let plain : Result (R × List R) = ok (add t (half (at r c 0)), su.1) in
        let popped : Result (R × List R) = pop su.1 >>= λ w. ok (add w.0 t, w.1) in
        (if ltb 0 (degree c) then popped else plain) >>= λ cu. ok (add (mul cu.0 qu.0) su.0, cu.1))

    -- The two passes of evalChebyshevSeries
    unfoldable pub two_phases : ℕ → List R → Result R
    two_phases m f = inner_record m f >>= λ constants. batched_sums r lib ts constants >>= λ ws.
        inner_remaining m f (pushed ws) >>= λ out. ok out.0
