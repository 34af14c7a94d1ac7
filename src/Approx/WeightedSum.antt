-- ===== src/Approx/WeightedSum.antt =====
-- src/CKKS/Ciphertext.cpp, evalPartialLinearWSumWithBias and its batched form, as far as the values
-- go. The grouping of the outputs of a batch for the kernels is left out.
pub mod Values
use fideslib.Prelude.{
  ℕ, zero, suc, ◌-◌, Bool, true, false, List, [], ◌∷◌, ◌==◌, if◌then◌else◌, length,
}
use fideslib.Ckks.Result.{Result, ok, err, ◌>>=◌, out_of_range}
use fideslib.Approx.Arithmetic.{Arithmetic}
use fideslib.Approx.Openfhe.{Openfhe}

module _ (r : Arithmetic) (lib : Openfhe r) where
  open r use {R, add, mul}

  -- weights[i] * ctxs[i - 1] for i = 1 .. limit, without the terms of weight zero
  unfoldable pub weighted_terms : (limit : ℕ) → List R → List R → Result R
  weighted_terms zero ws ts = ok r.zero
  weighted_terms (suc n) [] ts = err out_of_range
  weighted_terms (suc n) (w ∷ ws) [] =
      let rest = weighted_terms n ws [] in if lib.not_equal_zero w then err out_of_range else rest
  weighted_terms (suc n) (w ∷ ws) (t ∷ ts) = weighted_terms n ws ts >>= λ rest.
      ok (if lib.not_equal_zero w then add (mul t w) rest else rest)

  -- evalPartialLinearWSumWithBias: a limit of 0 stands for all ciphertexts.
  unfoldable pub weighted_sum : List R → List R → R → ℕ → Result R
  weighted_sum ts [] bias limit = err out_of_range
  weighted_sum ts (w ∷ ws) bias limit =
      weighted_terms (if limit == 0 then length ts else limit) ws ts >>= λ s.
      ok (if lib.not_equal_zero bias then add s bias else s)

  prepend : R → List R → List R
  prepend w [] = if lib.not_equal_zero w then w ∷ [] else []
  prepend w (v ∷ vs) = w ∷ v ∷ vs

  -- while (!IsNotEqualZero(weights.back())) weights.pop_back()
  unfoldable pub trim : List R → List R
  unfolding prepend
  trim [] = []
  trim (w ∷ ws) = prepend w (trim ws)

  -- One output of the batch: weights[0] is the bias. Nothing is left to pop from weights of zeros.
  unfoldable pub batched_sum : List R → List R → Result R
  batched_sum ts weights = elim (trim weights) [
    | [] ↦ err out_of_range
    | w ∷ ws ↦
        weighted_terms (length ws) ws ts >>= λ s. ok (if lib.not_equal_zero w then add s w else s)
  ]

  -- evalMultiplePartialLinearWSumWithBias
  unfoldable pub batched_sums : List R → List (List R) → Result (List R)
  batched_sums ts [] = ok []
  batched_sums ts (ws ∷ rest) =
      batched_sum ts ws >>= λ v. batched_sums ts rest >>= λ vs. ok (v ∷ vs)
