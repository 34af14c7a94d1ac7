-- ===== src/Rotations/Linear.antt =====
-- src/CKKS/LinearTransform.cu, LinearTransform and its two lists of rotation indexes: the product of
-- a matrix, given by diagonals, and a ciphertext, by baby steps and giant steps. Levels, noise and
-- the lazy reductions of the limbs are left out. A product outside the rows is no term of a sum.
pub mod Diagonal
pub mod Indexes
pub mod Keys
pub mod Rows
pub mod Sums
use fideslib.Prelude.{
  ℕ, zero, suc, ◌+◌, ◌-◌, ◌*◌, ◌/◌, Bool, true, false, not, ◌&&◌, ◌||◌, Option, some, none, List,
  [], ◌∷◌, ◌++◌, ltb, leb, ◌==◌, if◌then◌else◌, length,
}
use fideslib.Prelude.Int.{ℤ, pos, times, ◌-ℤ◌, eqb_ℤ}
use fideslib.Ckks.Result.{Result, ok, err, ◌>>=◌, ◌>>◌, guard, assertion, out_of_range}
use fideslib.Rotations.Evaluator.{Evaluator, residue, rotate_hoisted, rotate_one}

-- (row_size + b_step - 1) / b_step
unfoldable pub giant_steps : ℕ → ℕ → ℕ
giant_steps row_size b = (row_size + b - 1) / b

-- i * stride for `n` numbers from i on
unfoldable pub step_indexes : (n i : ℕ) → ℤ → List ℤ
step_indexes zero i stride = []
step_indexes (suc n) i stride = times i stride ∷ step_indexes n (suc i) stride

unfoldable pub get_linear_transform_rotation_indices : ℕ → ℤ → ℤ → List ℤ
get_linear_transform_rotation_indices b stride offset =
    step_indexes b 1 stride ++ (if eqb_ℤ offset (pos 0) then [] else offset ∷ [])

-- -b_step * j * stride - offset
unfoldable pub plaintext_index : ℕ → ℤ → ℤ → ℕ → ℤ
plaintext_index b stride offset j = pos 0 -ℤ times (b * j) stride -ℤ offset

-- The entries i + j * b_step of a row j, from i on, within the row size
unfoldable pub index_row : (row_size b : ℕ) → ℤ → ℤ → (n i j : ℕ) → List ℤ
index_row row_size b stride offset zero i j = []
index_row row_size b stride offset (suc n) i j =
    let rest = index_row row_size b stride offset n (suc i) j in
    if ltb (i + j * b) row_size then plaintext_index b stride offset j ∷ rest else rest

unfoldable pub index_rows : (row_size b : ℕ) → ℤ → ℤ → (g j : ℕ) → List ℤ
index_rows row_size b stride offset zero j = []
index_rows row_size b stride offset (suc g) j =
    index_row row_size b stride offset b 0 j ++ index_rows row_size b stride offset g (suc j)

unfoldable pub get_linear_transform_plaintext_rotation_indices : (row_size b : ℕ) → ℤ → ℤ → List ℤ
get_linear_transform_plaintext_rotation_indices row_size b stride offset =
    index_rows row_size b stride offset (giant_steps row_size b) 0

unfoldable pub at {ℓ} : {A : Type ℓ} → List A → ℕ → Result A
at [] i = err out_of_range
at (x ∷ xs) zero = ok x
at (x ∷ xs) (suc i) = at xs i

module _ (e : Evaluator) where
  open e use {Ct, Pt, add, mult_pt}

  unfoldable pub total : Ct → List Ct → Ct
  total x [] = x
  total x (y ∷ ys) = add x (total y ys)

  unfoldable pub sum_terms : List Ct → Result Ct
  sum_terms [] = err out_of_range
  sum_terms (x ∷ xs) = ok (total x xs)

  -- The products of a row, from entry k on: a plaintext outside row_size is null, and skipped.
  unfoldable pub dot_terms : ℕ → List Pt → ℕ → List Ct → Result (List Ct)
  dot_terms row_size pts k [] = ok []
  dot_terms row_size pts k (f ∷ fs) =
      let rest = dot_terms row_size pts (suc k) fs in
      let here = (at pts k >>= λ p. rest >>= λ ts. ok (mult_pt f p ∷ ts)) in
      if ltb k row_size then here else rest

  -- DotProductPtInternal: one sum for each of g giant steps, from j on
  unfoldable pub dot_rows : (row_size b : ℕ) → List Pt → List Ct → (g j : ℕ) → Result (List Ct)
  dot_rows row_size b pts fast zero j = ok []
  dot_rows row_size b pts fast (suc g) j = dot_terms row_size pts (b * j) fast >>= λ ts.
      sum_terms ts >>= λ s. dot_rows row_size b pts fast g (suc j) >>= λ rest. ok (s ∷ rest)

module _ (e : Evaluator) (key : ℕ → Bool) (debug : Bool) where
  open e use {Ct, Pt, ring, add}

  -- results[j]->rotate(bStep * stride), unless N / 2 divides the index
  unfoldable pub giant_rotate : ℤ → Ct → Result Ct
  giant_rotate i c = if residue i (ring / 2) == 0 then ok c else rotate_one e key debug i c

  -- The loop from the last giant step down, as far as the addition to the results of step j
  unfoldable pub fold_rows : ℤ → List Ct → Result Ct
  fold_rows i [] = err out_of_range
  fold_rows i (r ∷ []) = ok r
  fold_rows i (r ∷ s ∷ rest) = do
    inner ← fold_rows i (s ∷ rest)
    turned ← giant_rotate i inner
    ok (add r turned)

  unfoldable pub offset_rotate : ℤ → Ct → Result Ct
  offset_rotate offset c = if eqb_ℤ offset (pos 0) then ok c else rotate_one e key debug offset c

  unfoldable pub linear_transform : (row_size b : ℕ) → List Pt → ℤ → ℤ → Ct → Result Ct
  linear_transform row_size b pts stride offset c = do
    guard (not (debug && ltb (length pts) row_size)) assertion
    fast ← rotate_hoisted e key (step_indexes b 0 stride) c
    rows ← dot_rows e row_size b pts fast (giant_steps row_size b) 0
    sum ← fold_rows (times b stride) rows
    offset_rotate offset sum
