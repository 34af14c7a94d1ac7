-- ===== src/Rotations/Convolution/Sums.antt =====
-- Halves of lists, and sums of pairs of their entries.
use fideslib.Prelude.{
  ℕ, zero, suc, ◌-◌, ◌≤◌, ◌≡◌, ◌∙◌, sym, ap, refl, List, [], ◌∷◌, ◌++◌, length, arith,
}
use fideslib.Ckks.Result.{ok}
use fideslib.Rotations.Evaluator.{Evaluator}
use fideslib.Rotations.Linear.{sum_terms, total}
use fideslib.Rotations.Linear.Sums.{sum_terms-append}
use fideslib.Rotations.Convolution.{take, drop, add_pairs}

module _ {ℓ} {A : Type ℓ} where
  pub take-append : (n : ℕ) (xs ys : List A) → n ≤ length xs → take n (xs ++ ys) ≡ take n xs
  unfolding take
  take-append zero xs ys h = refl
  take-append (suc n) [] ys h = absurd (omega arith)
  take-append (suc n) (x ∷ xs) ys h = ap (λ (l : List A). x ∷ l) (take-append n xs ys (omega arith))

  pub drop-append : (n : ℕ) (xs ys : List A) → n ≤ length xs → drop n (xs ++ ys) ≡ drop n xs ++ ys
  unfolding drop
  drop-append zero xs ys h = refl
  drop-append (suc n) [] ys h = absurd (omega arith)
  drop-append (suc n) (x ∷ xs) ys h = drop-append n xs ys (omega arith)

  pub take_all : (xs : List A) → take (length xs) xs ≡ xs
  unfolding take
  take_all [] = refl
  take_all (x ∷ xs) = ap (λ (l : List A). x ∷ l) (take_all xs)

  pub drop_all : (xs : List A) → drop (length xs) xs ≡ []
  unfolding drop
  drop_all [] = refl
  drop_all (x ∷ xs) = drop_all xs

  pub length-take : (n : ℕ) (xs : List A) → n ≤ length xs → length (take n xs) ≡ n
  unfolding take
  length-take zero xs h = refl
  length-take (suc n) [] h = absurd (omega arith)
  length-take (suc n) (x ∷ xs) h = ap suc (length-take n xs (omega arith))

  pub length-drop : (n : ℕ) (xs : List A) → length (drop n xs) ≡ length xs - n
  unfolding drop
  length-drop zero xs = omega arith
  length-drop (suc n) [] = omega arith
  length-drop (suc n) (x ∷ xs) = omega (arith, length-drop n xs)

  pub take-drop : (n : ℕ) (xs : List A) → take n xs ++ drop n xs ≡ xs
  unfolding take drop
  take-drop zero xs = refl
  take-drop (suc n) [] = refl
  take-drop (suc n) (x ∷ xs) = ap (λ (l : List A). x ∷ l) (take-drop n xs)

module _ (e : Evaluator) where
  open e use {Ct, add, add_assoc, add_comm}

  pub length-add_pairs :
      (xs ys : List Ct) → length xs ≡ length ys → length (add_pairs e xs ys) ≡ length xs
  unfolding add_pairs
  length-add_pairs [] ys h = refl
  length-add_pairs (x ∷ xs) [] h = absurd (omega arith)
  length-add_pairs (x ∷ xs) (y ∷ ys) h = ap suc (length-add_pairs xs ys (omega arith))

  pub add_pairs-longer :
      (xs ys zs : List Ct) → length xs ≡ length ys → add_pairs e xs (ys ++ zs) ≡ add_pairs e xs ys
  unfolding add_pairs
  add_pairs-longer [] ys zs h = refl
  add_pairs-longer (x ∷ xs) [] zs h = absurd (omega arith)
  add_pairs-longer (x ∷ xs) (y ∷ ys) zs h =
      ap (λ (l : List Ct). add x y ∷ l) (add_pairs-longer xs ys zs (omega arith))

  pub add_pairs-append :
      (xs ys us vs : List Ct)
      → length xs ≡ length ys
      → add_pairs e (xs ++ us) (ys ++ vs) ≡ add_pairs e xs ys ++ add_pairs e us vs
  unfolding add_pairs
  add_pairs-append [] [] us vs h = refl
  add_pairs-append [] (y ∷ ys) us vs h = absurd (omega arith)
  add_pairs-append (x ∷ xs) [] us vs h = absurd (omega arith)
  add_pairs-append (x ∷ xs) (y ∷ ys) us vs h =
      ap (λ (l : List Ct). add x y ∷ l) (add_pairs-append xs ys us vs (omega arith))

  swap_inner : (a b c d : Ct) → add (add a b) (add c d) ≡ add (add a c) (add b d)
  swap_inner a b c d =
      rw (add_assoc, ← add_assoc b c d, add_comm b c, add_assoc c b d, ← add_assoc a c (add b d))

  total_pairs :
      (x y : Ct) (xs ys : List Ct)
      → length xs ≡ length ys
      → total e (add x y) (add_pairs e xs ys) ≡ add (total e x xs) (total e y ys)
  unfolding total add_pairs
  total_pairs x y [] [] h = refl
  total_pairs x y [] (v ∷ ys) h = absurd (omega arith)
  total_pairs x y (u ∷ xs) [] h = absurd (omega arith)
  total_pairs x y (u ∷ xs) (v ∷ ys) h =
      rw (total_pairs u v xs ys (omega arith)) (swap_inner x y (total e u xs) (total e v ys))

  pub sum_pairs :
      (xs ys : List Ct)
      → length xs ≡ length ys
      → sum_terms e (add_pairs e xs ys) ≡ sum_terms e (xs ++ ys)
  unfolding add_pairs sum_terms
  sum_pairs [] [] h = refl
  sum_pairs [] (v ∷ ys) h = absurd (omega arith)
  sum_pairs (u ∷ xs) [] h = absurd (omega arith)
  sum_pairs (u ∷ xs) (v ∷ ys) h =
      ap ok (total_pairs u v xs ys (omega arith))
      ∙ sym (sum_terms-append e (u ∷ xs) (v ∷ ys) refl refl)
