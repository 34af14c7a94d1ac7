-- ===== src/Approx/Powers/Fused.antt =====
-- src/CKKS/ApproxModEval.cu: innerEvalPolyPSFused in the modes RECORD and REMAINING, and
-- evalPolyPSWithPrecompFused, whose weighted sums are evaluated in one batch.
pub mod Passes
pub mod Replay
use fideslib.Prelude.{
  ℕ, zero, suc, ◌+◌, ◌-◌, ◌*◌, ◌^◌, true, false, List, [], ◌∷◌, ◌++◌, ltb, ◌==◌, if◌then◌else◌,
}
use fideslib.Ckks.Result.{Result, ok, err, ◌>>=◌, out_of_range}
use fideslib.Approx.Arithmetic.{Arithmetic}
use fideslib.Approx.Vectors.{at}
use fideslib.Approx.Openfhe.{Openfhe}
use fideslib.Approx.Split.{add_power, split}
use fideslib.Approx.WeightedSum.{batched_sums}
use fideslib.Approx.Chebyshev.{double_at, pop, pushed}
use fideslib.Approx.Powers.{SeriesPowers, eval_padded}

module _ (r : Arithmetic) (lib : Openfhe r) where
  open r use {R, add, mul}
  open lib use {degree, long_division_poly}

  -- The recorded weights of a terminal part: v.resize(k + 1), v[k] = 1
  unfoldable pub recorded_leading : (k : ℕ) → List R → List (List R)
  recorded_leading k f = add_power r lib k f ∷ []

  -- Mode RECORD, with m - 1 for the argument m of a step
  unfoldable pub record_poly : (k : ℕ) → ℕ → List R → Result (List (List R))
  record_poly k zero f = err out_of_range
  record_poly k (suc m) f = split r lib long_division_poly k m f >>= λ (q, s2, c).
      (elim (ltb k (degree q)) [ true ↦ record_poly k m q | false ↦ ok (recorded_leading k q) ]
        >>= λ qs.
            elim (ltb k (degree s2)) [
              | true ↦ record_poly k m s2
              | false ↦ ok (recorded_leading k s2)
            ]
            >>= λ ss. ok (qs ++ (ss ++ (if degree c == 0 then [] else c ∷ []))))

  -- cu of a step, from c and t = powers2[m - 1], and what is left of the stack
  unfoldable pub remaining_correction : List R → R → List R → Result (R × List R)
  remaining_correction c t stack =
      let plain : Result (R × List R) = ok (add t (at r c 0), stack) in
      let popped : Result (R × List R) = pop stack >>= λ w. ok (add w.0 t, w.1) in
      if degree c == 0 then plain else popped

  -- Mode REMAINING: the result and what is left of the stack
  unfoldable pub remaining_poly : (k : ℕ) (t2 : List R) → ℕ → List R → List R → Result (R × List R)
  remaining_poly k t2 zero f stack = err out_of_range
  remaining_poly k t2 (suc m) f stack = split r lib long_division_poly k m f >>= λ (q, s2, c).
      (elim (ltb k (degree q)) [ true ↦ remaining_poly k t2 m q stack | false ↦ pop stack ]
        >>= λ qu.
            elim (ltb k (degree s2)) [ true ↦ remaining_poly k t2 m s2 qu.1 | false ↦ pop qu.1 ]
            >>= λ su. double_at t2 m >>= λ t.
                remaining_correction c t su.1 >>= λ cu. ok (add (mul cu.0 qu.0) su.0, cu.1))

  -- Both passes, with the batch between them
  unfoldable pub two_passes : (k : ℕ) → List R → List R → ℕ → List R → Result R
  two_passes k ts t2 m f = record_poly k m f >>= λ constants.
      batched_sums r lib ts constants >>= λ ws.
      remaining_poly k t2 m f (pushed ws) >>= λ out. ok out.0

  unfoldable pub eval_poly_ps_fused : SeriesPowers r lib → List R → Result R
  eval_poly_ps_fused = eval_padded r lib two_passes
