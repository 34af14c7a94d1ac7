-- ===== src/Rotations/Linear/Sums.antt =====
-- Lists of products, their sums and rotations, and the diagonals of a matrix.
use fideslib.Prelude.{ℕ, zero, suc, ◌+◌, ◌≡◌, refl, List, [], ◌∷◌, ◌++◌, map, arith}
use fideslib.Prelude.Int.{ℤ, times, ◌+ℤ◌}
use fideslib.Ckks.Result.{ok}
use fideslib.Rotations.Evaluator.{Evaluator}
use fideslib.Rotations.Linear.{total, sum_terms}

module _ (e : Evaluator) where
  open e use {Ct, Pt, add, rotate, add_assoc, rotate-add}

  -- n diagonals from number k on: the rotation by k * stride + offset, times q k
  unfoldable pub diagonals : (ℕ → Pt) → ℤ → ℤ → Ct → (n k : ℕ) → List Ct
  diagonals q stride offset c zero k = []
  diagonals q stride offset c (suc n) k =
      e.mult_pt (rotate (times k stride +ℤ offset) c) (q k) ∷ diagonals q stride offset c n (suc k)

  total-append :
      (x y : Ct) (xs ys : List Ct) → total e x (xs ++ (y ∷ ys)) ≡ add (total e x xs) (total e y ys)
  unfolding total
  total-append x y [] ys = refl
  total-append x y (z ∷ xs) ys = rw (total-append z y xs ys, add_assoc)

  pub sum_terms-append :
      (xs ys : List Ct) {a b : Ct}
      → sum_terms e xs ≡ ok a
      → sum_terms e ys ≡ ok b
      → sum_terms e (xs ++ ys) ≡ ok (add a b)
  unfolding sum_terms
  sum_terms-append [] ys p q = cc
  sum_terms-append (x ∷ xs) [] p q = cc
  sum_terms-append (x ∷ xs) (y ∷ ys) p q = ground (arith, total-append x y xs ys)

  rotate-total :
      (i : ℤ) (x : Ct) (xs : List Ct)
      → total e (rotate i x) (map (rotate i) xs) ≡ rotate i (total e x xs)
  unfolding total
  rotate-total i x [] = refl
  rotate-total i x (y ∷ ys) = rw (rotate-add, ← rotate-total i y ys)

  pub sum_terms-rotate :
      (i : ℤ) (xs : List Ct) {a : Ct}
      → sum_terms e xs ≡ ok a
      → sum_terms e (map (rotate i) xs) ≡ ok (rotate i a)
  unfolding sum_terms
  sum_terms-rotate i [] p = cc
  sum_terms-rotate i (x ∷ xs) p = ground (arith, rotate-total i x xs)

  pub diagonals-append :
      (q : ℕ → Pt) (stride offset : ℤ) (c : Ct) (m n k : ℕ)
      → diagonals q stride offset c (m + n) k
        ≡ diagonals q stride offset c m k ++ diagonals q stride offset c n (k + m)
  unfolding diagonals
  diagonals-append q stride offset c zero n k =
      let a : 0 + n ≡ n = omega arith in let b : k + 0 ≡ k = omega arith in rw (a, b)
  diagonals-append q stride offset c (suc m) n k =
      let a : suc m + n ≡ suc (m + n) = omega arith in
      let b : k + suc m ≡ suc k + m = omega arith in
      rw (a, b, diagonals-append q stride offset c m n (suc k))
