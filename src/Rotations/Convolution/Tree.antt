-- ===== src/Rotations/Convolution/Tree.antt =====
-- What the additions of ConvolutionTransform give: the sum, for an odd number of results and for a
-- power of two; and for twice an odd number, which results are not added.
use fideslib.Prelude.{
  ℕ, zero, suc, ◌+◌, ◌*◌, ◌/◌, ◌%◌, ◌^◌, ◌<◌, ◌≡◌, ◌⊎◌, ◌∙◌, sym, ap, refl, inl, inr, List, [], ◌∷◌,
  ◌++◌, length, length-append, arith,
}
use native.Mathlib.Nat.{pow-suc}
use fideslib.Prelude.Bits.{lt_pow, pow_pos}
use fideslib.Rotations.Evaluator.{Evaluator}
use fideslib.Rotations.Linear.{sum_terms, total}
use fideslib.Rotations.Convolution.{take, drop, add_pairs, halve, head, tree, accumulate_results}
use fideslib.Rotations.Convolution.Sums.{
  take-append, drop-append, take_all, drop_all, length-take, length-drop, take-drop,
  length-add_pairs, add_pairs-longer, add_pairs-append, sum_pairs,
}

module _ (e : Evaluator) where
  open e use {Ct, add}

  module _ (xs : List Ct) (n : ℕ) (len : length xs ≡ n + n) where
    half_length : length xs / 2 ≡ n
    half_length = omega arith

    length-halve : length (halve e xs) ≡ n
    unfolding halve
    length-halve =
        let t = length-take n xs (omega arith) in
        let d : length (take n xs) ≡ length (drop n xs) = omega (arith, length-drop n xs) in
        rw half_length (length-add_pairs e (take n xs) (drop n xs) d ∙ t)

    sum-halve : sum_terms e (halve e xs) ≡ sum_terms e xs
    unfolding halve
    sum-halve =
        let t = length-take n xs (omega arith) in
        let d : length (take n xs) ≡ length (drop n xs) = omega (arith, length-drop n xs) in
        rw half_length (sum_pairs e (take n xs) (drop n xs) d ∙ ap (sum_terms e) (take-drop n xs))

  tree_one : (fuel : ℕ) (xs : List Ct) → length xs ≡ 1 → tree e (suc fuel) xs ≡ sum_terms e xs
  unfolding tree head sum_terms total
  tree_one fuel [] h = absurd (omega arith)
  tree_one fuel (x ∷ []) h = refl
  tree_one fuel (x ∷ y ∷ xs) h = absurd (omega arith)

  tree_round :
      (fuel : ℕ) (xs : List Ct) → 1 < length xs → tree e (suc fuel) xs ≡ tree e fuel (halve e xs)
  unfolding tree
  tree_round fuel xs h = ground arith

  tree-pow :
      (k fuel : ℕ) (xs : List Ct) → k < fuel → length xs ≡ 2 ^ k → tree e fuel xs ≡ sum_terms e xs
  tree-pow k zero xs h len = absurd (omega arith)
  tree-pow zero (suc fuel) xs h len = tree_one fuel xs len
  tree-pow (suc k) (suc fuel) xs h len =
      let twice : length xs ≡ 2 ^ k + 2 ^ k = omega (arith, pow-suc 2 k) in
      tree_round fuel xs (omega (arith, pow_pos k))
      ∙ tree-pow k fuel (halve e xs) (omega arith) (length-halve xs (2 ^ k) twice)
      ∙ sum-halve xs (2 ^ k) twice

  -- The additions of a block of ConvolutionTransform, and of the blocks: an odd number of results,
  -- or a power of two of them, gives their sum.
  pub accumulate_results-sums :
      (xs : List Ct) (k : ℕ)
      → (length xs % 2 ≡ 1) ⊎ (length xs ≡ 2 ^ k)
      → accumulate_results e xs ≡ sum_terms e xs
  unfolding accumulate_results
  accumulate_results-sums xs k (inl odd) = rw odd
  accumulate_results-sums xs zero (inr len) = rw len
  accumulate_results-sums xs (suc k) (inr len) =
      let even : length xs % 2 ≡ 0 = omega (arith, len, pow-suc 2 k) in
      rw even (tree-pow (suc k) (suc (length xs)) xs (omega (arith, lt_pow (suc k))) len)

  -- An odd number of active results: the last one is not read.
  halve-odd :
      (zs : List Ct) (n : ℕ) (c : Ct)
      → length zs ≡ n + n
      → halve e (zs ++ (c ∷ [])) ≡ add_pairs e (take n zs) (drop n zs)
  unfolding halve
  halve-odd zs n c len =
      let half : length (zs ++ (c ∷ [])) / 2 ≡ n = omega (arith, length-append zs (c ∷ [])) in
      let t = take-append n zs (c ∷ []) (omega arith) in
      let d = drop-append n zs (c ∷ []) (omega arith) in
      let same : length (take n zs) ≡ length (drop n zs) =
        omega (arith, length-take n zs (omega arith), length-drop n zs) in
      rw (half, t, d) (add_pairs-longer e (take n zs) (drop n zs) (c ∷ []) same)

  module _ (xs ys : List Ct) (n : ℕ) (lx : length xs ≡ n + n) (ly : length ys ≡ n + n) where
    -- Results of which x is the last of the first half, and y that of the second
    abbrev results : Ct → Ct → List Ct
    results x y = (xs ++ (x ∷ [])) ++ (ys ++ (y ∷ []))

    halve-results : (x y : Ct) → halve e (results x y) ≡ add_pairs e xs ys ++ (add x y ∷ [])
    unfolding halve add_pairs
    halve-results x y =
        let lx' : length (xs ++ (x ∷ [])) ≡ suc (n + n) =
          omega (arith, length-append xs (x ∷ []), lx) in
        let ly' : length (ys ++ (y ∷ [])) ≡ suc (n + n) =
          omega (arith, length-append ys (y ∷ []), ly) in
        let half : length (results x y) / 2 ≡ length (xs ++ (x ∷ [])) =
          omega (arith, length-append (xs ++ (x ∷ [])) (ys ++ (y ∷ [])), lx', ly') in
        let t =
          take-append (length (xs ++ (x ∷ []))) (xs ++ (x ∷ [])) (ys ++ (y ∷ [])) (omega arith)
          ∙ take_all (xs ++ (x ∷ [])) in
        let d =
          drop-append (length (xs ++ (x ∷ []))) (xs ++ (x ∷ [])) (ys ++ (y ∷ [])) (omega arith)
          ∙ ap (λ (l : List Ct). l ++ (ys ++ (y ∷ []))) (drop_all (xs ++ (x ∷ []))) in
        rw (half, t, d) (add_pairs-append e xs ys (x ∷ []) (y ∷ []) (omega (arith, lx, ly)))

    length-results : (x y : Ct) → length (results x y) ≡ suc (suc (4 * n))
    length-results x y = omega (
      arith,
      length-append (xs ++ (x ∷ [])) (ys ++ (y ∷ [])),
      length-append xs (x ∷ []),
      length-append ys (y ∷ []),
      lx,
      ly,
    )

    two_rounds :
        (x y : Ct)
        → 0 < n
        → accumulate_results e (results x y)
          ≡ tree e
              (suc (4 * n))
              (add_pairs e (take n (add_pairs e xs ys)) (drop n (add_pairs e xs ys)))
    unfolding accumulate_results
    two_rounds x y np =
        let l = length-results x y in
        let even : length (results x y) % 2 ≡ 0 = omega arith in
        let pairs : length (add_pairs e xs ys) ≡ n + n =
          omega (arith, length-add_pairs e xs ys (omega (arith, lx, ly)), lx) in
        let last = add x y ∷ [] in
        rw (even, l)
          (tree_round (suc (suc (4 * n))) (results x y) (omega arith)
            ∙ ap (tree e (suc (suc (4 * n)))) (halve-results x y)
            ∙ tree_round (suc (4 * n)) (add_pairs e xs ys ++ last)
                (omega (arith, length-append (add_pairs e xs ys) last, pairs))
            ∙ ap (tree e (suc (4 * n))) (halve-odd (add_pairs e xs ys) n (add x y) pairs))

  -- The additions of a block of ConvolutionTransform, and of the blocks, for twice an odd number of
  -- results from 6 on: the last result of each half, x and y, is not added. Other values for these
  -- two give the same outcome.
  pub accumulate_results-drops :
      (xs ys : List Ct) (n : ℕ) (x y x' y' : Ct)
      → 0 < n
      → length xs ≡ n + n
      → length ys ≡ n + n
      → accumulate_results e ((xs ++ (x ∷ [])) ++ (ys ++ (y ∷ [])))
        ≡ accumulate_results e ((xs ++ (x' ∷ [])) ++ (ys ++ (y' ∷ [])))
  accumulate_results-drops xs ys n x y x' y' np lx ly =
      two_rounds xs ys n lx ly x y np ∙ sym (two_rounds xs ys n lx ly x' y' np)
