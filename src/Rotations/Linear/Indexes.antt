-- ===== src/Rotations/Linear/Indexes.antt =====
-- The rotation indexes of the plaintexts of LinearTransform: entry k of the list has the index of its
-- row k / b_step.
use fideslib.Prelude.{
  ℕ, zero, suc, ◌+◌, ◌-◌, ◌*◌, ◌/◌, ◌≤◌, ◌<◌, ◌≡◌, ◌∙◌, ap, refl, inl, inr, List, [], ◌∷◌, ◌++◌,
  ltb, length, arith, Bool-cases, ltb→lt,
}
use native.Mathlib.Nat.{add-mul-div_right, div-eq_of_lt, lt-div-mul-add}
use fideslib.Prelude.Int.{ℤ}
use fideslib.Ckks.Result.{ok}
use fideslib.Rotations.Evaluator.{Evaluator}
use fideslib.Rotations.Linear.{
  giant_steps, plaintext_index, index_row, index_rows,
  get_linear_transform_plaintext_rotation_indices, at,
}

-- The plaintexts q k, q (k + 1), ..., each rotated by its index
unfoldable pub prepared : (e : Evaluator) → (ℕ → e.Pt) → ℕ → List ℤ → List e.Pt
prepared e q k [] = []
prepared e q k (i ∷ is) = e.rotate_pt i (q k) ∷ prepared e q (suc k) is

module _ (row_size b : ℕ) (stride offset : ℤ) where
  -- n indexes from entry k on
  index_list : (n k : ℕ) → List ℤ
  index_list zero k = []
  index_list (suc n) k = plaintext_index b stride offset (k / b) ∷ index_list n (suc k)

  at-index_list :
      (e : Evaluator) (q : ℕ → e.Pt) (n k i : ℕ)
      → i < n
      → at (prepared e q k (index_list n k)) i
        ≡ ok (e.rotate_pt (plaintext_index b stride offset ((k + i) / b)) (q (k + i)))
  unfolding at prepared index_list
  at-index_list e q zero k i h = absurd (omega arith)
  at-index_list e q (suc n) k zero h = let s : k + 0 ≡ k = omega arith in rw s
  at-index_list e q (suc n) k (suc i) h =
      let s : k + suc i ≡ suc k + i = omega arith in
      rw s (at-index_list e q n (suc k) i (omega arith))

  length-index_list :
      (e : Evaluator) (q : ℕ → e.Pt) (n k : ℕ) → length (prepared e q k (index_list n k)) ≡ n
  unfolding prepared index_list
  length-index_list e q zero k = refl
  length-index_list e q (suc n) k = ap suc (length-index_list e q n (suc k))

  module _ (bp : 0 < b) where
    row_of : (i j : ℕ) → i < b → (i + j * b) / b ≡ j
    row_of i j h = add-mul-div_right i j bp ∙ ap (λ (x : ℕ). x + j) (div-eq_of_lt h) ∙ omega arith

    index_row_lem :
        (n i j : ℕ) (tail : List ℤ)
        → i + n ≡ b
        → tail ≡ index_list (row_size - (b + j * b)) (b + j * b)
        → index_row row_size b stride offset n i j ++ tail
          ≡ index_list (row_size - (i + j * b)) (i + j * b)
    unfolding index_row index_list
    index_row_lem zero i j tail h t = let s : i ≡ b = omega arith in rw s t
    index_row_lem (suc n) i j tail h t =
        let ih = index_row_lem n (suc i) j tail (omega arith) t in
        elim (Bool-cases (ltb (i + j * b) row_size)) [
          | inl inside ↦
              let less = ltb→lt _ _ inside in
              let c : row_size - (i + j * b) ≡ suc (row_size - (suc i + j * b)) = omega arith in
              let k : suc i + j * b ≡ suc (i + j * b) = omega arith in
              rw (inside, c, row_of i j (omega arith), ih, k)
          | inr outside ↦
              let c : row_size - (i + j * b) ≡ 0 = ground arith in
              let d : row_size - (suc i + j * b) ≡ 0 = omega arith in rw (outside, c, ih, d)
        ]

    index_rows_lem :
        (g j : ℕ)
        → row_size ≤ (j + g) * b
        → index_rows row_size b stride offset g j ≡ index_list (row_size - j * b) (j * b)
    unfolding index_rows index_list
    index_rows_lem zero j h =
        let s : j + 0 ≡ j = omega arith in
        let c : row_size - j * b ≡ 0 = (let h' : row_size ≤ j * b = rw s at h in omega arith) in
        rw c
    index_rows_lem (suc g) j h =
        let s : j + suc g ≡ suc j + g = omega arith in
        let ih = index_rows_lem g (suc j) (rw s at h) in
        let a : suc j * b ≡ b + j * b = omega arith in
        let z : 0 + j * b ≡ j * b = omega arith in
        let row =
          index_row_lem b 0 j (index_rows row_size b stride offset g (suc j)) (omega arith)
            (rw a at ih) in
        rw z at row

    enough_rows : row_size ≤ giant_steps row_size b * b
    unfolding giant_steps
    enough_rows = omega (arith, lt-div-mul-add {a = row_size + b - 1} bp)

    listed :
        get_linear_transform_plaintext_rotation_indices row_size b stride offset
        ≡ index_list row_size 0
    unfolding get_linear_transform_plaintext_rotation_indices
    listed =
        let s : 0 + giant_steps row_size b ≡ giant_steps row_size b = omega arith in
        let lem = index_rows_lem (giant_steps row_size b) 0 (rw s enough_rows) in
        let z : 0 * b ≡ 0 = omega arith in
        let n : row_size - 0 ≡ row_size = omega arith in rw (z, n) at lem

    pub at-prepared :
        (e : Evaluator) (q : ℕ → e.Pt) (i : ℕ)
        → i < row_size
        → at
            (prepared e q 0
              (get_linear_transform_plaintext_rotation_indices row_size b stride offset))
            i
          ≡ ok (e.rotate_pt (plaintext_index b stride offset (i / b)) (q i))
    at-prepared e q i h =
        let z : 0 + i ≡ i = omega arith in
        let lem = at-index_list e q row_size 0 i h in rw listed (rw z at lem)

    pub length-prepared :
        (e : Evaluator) (q : ℕ → e.Pt)
        → length (
            prepared e q 0
              (get_linear_transform_plaintext_rotation_indices row_size b stride offset))
          ≡ row_size
    length-prepared e q = rw listed (length-index_list e q row_size 0)
