-- ===== src/Approx/Powers/Sparse.antt =====
-- src/CKKS/ApproxModEval.cu: evalPowersLinear and evalPolyLinearWithPrecomp, below degree 5. A power
-- that is not computed is an empty ciphertext, here `none`.
pub mod Values
use fideslib.Prelude.{
  ℕ, zero, suc, ◌-◌, ◌/◌, ◌^◌, Bool, true, false, not, ◌||◌, Option, none, some, List, [], ◌∷◌,
  ◌++◌, ltb, ◌==◌, if◌then◌else◌, length,
}
use fideslib.Prelude.Bits.{and_bits, bit_width}
use fideslib.Ckks.Result.{
  Result, ok, err, ◌>>=◌, ◌>>◌, guard, out_of_range, out_of_fuel, invalid_argument,
}
use fideslib.Approx.Arithmetic.{Arithmetic}
use fideslib.Approx.Vectors.{at}
use fideslib.Approx.Openfhe.{Openfhe}

unfoldable pub is_power_of_2 : ℕ → Bool
is_power_of_2 i = and_bits 32 i (i - 1) == 0

-- (1 << (msbOf(i) - 1)) - 1
unfoldable pub below_top : ℕ → ℕ
below_top i = 2 ^ (bit_width 64 i - 1) - 1

-- The indexes that are marked to compute the power rem
unfoldable pub decomposition : (fuel rem : ℕ) → Result (List ℕ)
decomposition zero rem = err out_of_fuel
decomposition (suc n) rem = elim (is_power_of_2 rem) [
  | true ↦ ok []
  | false ↦ decomposition n (and_bits 64 rem (below_top rem)) >>= λ rest. ok (rem ∷ rest)
]

unfoldable pub marked : ℕ → List ℕ → Bool
marked i [] = false
marked i (j ∷ js) = i == j || marked i js

module _ (r : Arithmetic) (lib : Openfhe r) where
  open r use {R, add, mul}
  open lib use {not_equal_zero}

  -- The i with indices[i - 1], from k down
  unfoldable pub needed : (k : ℕ) → List R → Result (List ℕ)
  needed zero f = ok []
  needed (suc n) f =
      let here =
        if is_power_of_2 (suc n)
        then ok (suc n ∷ [])
        else if not_equal_zero (at r f (suc n))
        then decomposition 32 (suc n)
        else ok [] in
      here >>= λ is. needed n f >>= λ rest. ok (is ++ rest)

  unfoldable pub filled : Option R → Result R
  filled none = err out_of_range
  filled (some t) = ok t

  unfoldable pub entry : List (Option R) → ℕ → Result R
  entry [] i = err out_of_range
  entry (t ∷ ts) zero = filled t
  entry (t ∷ ts) (suc i) = entry ts i

  unfoldable pub product : List (Option R) → ℕ → ℕ → Result (Option R)
  product ts i j = entry ts i >>= λ a. entry ts j >>= λ b. ok (some (mul a b))

  -- The loop over i, for n rounds
  unfoldable pub sparse_loop : (n i : ℕ) → List ℕ → List (Option R) → Result (List (Option R))
  sparse_loop zero i marks ts = ok ts
  sparse_loop (suc n) i marks ts =
      let p = below_top i in
      let here =
        if is_power_of_2 i
        then product ts (i / 2 - 1) (i / 2 - 1)
        else if marked i marks
        then product ts p (and_bits 64 i p - 1)
        else ok none in
      here >>= λ t. sparse_loop n (suc i) marks (ts ++ t ∷ [])

  -- evalPowersLinear; fewer than two coefficients would be an access beyond the end.
  unfoldable pub eval_powers_linear : R → List R → Result (List (Option R))
  eval_powers_linear x f =
      guard (not (ltb (length f) 2)) out_of_range
      >> (needed (length f - 1) f >>= λ marks. sparse_loop (length f - 2) 2 marks (some x ∷ []))

  unfoldable pub add_sparse_term : (i : ℕ) → List (Option R) → List R → R → Result R
  add_sparse_term i ts f acc =
      if not_equal_zero (at r f i)
      then (entry ts (i - 1) >>= λ t. ok (add acc (mul t (at r f i))))
      else ok acc

  -- result.add(powers[i - 1] * coefficients[i]) for n rounds from i on
  unfoldable pub add_sparse : (n i : ℕ) → List (Option R) → List R → R → Result R
  add_sparse zero i ts f acc = ok acc
  add_sparse (suc n) i ts f acc =
      add_sparse_term i ts f acc >>= λ sum. add_sparse n (suc i) ts f sum

  -- evalPolyLinearWithPrecomp
  unfoldable pub eval_poly_linear : List (Option R) → List R → Result R
  eval_poly_linear ts f =
      let k = length f - 1 in
      guard (not (ltb (length f) 2)) invalid_argument
      >> (guard (not_equal_zero (at r f k)) invalid_argument
          >> (entry ts (k - 1) >>= λ t.
              add_sparse (k - 1) 1 ts f (mul t (at r f k)) >>= λ out. ok (add out (at r f 0))))
