-- ===== src/Rotations/Convolution.antt =====
-- src/CKKS/LinearTransform.cu, ConvolutionTransform and its list of rotation indexes: rows of
-- products, each rotated, added up in blocks of 8 rows. Levels, noise and the lazy reductions of the
-- limbs are left out; `gstep` and the other numbers do not leave the range of their types.
pub mod Sums
pub mod Keys
pub mod Tree
use fideslib.Prelude.{
  ℕ, zero, suc, ◌+◌, ◌-◌, ◌*◌, ◌/◌, ◌%◌, Bool, true, false, not, ◌&&◌, ◌||◌, List, [], ◌∷◌, ◌++◌,
  ltb, leb, ◌==◌, if◌then◌else◌, length, min,
}
use fideslib.Prelude.Int.{ℤ, pos, times}
use fideslib.Ckks.Result.{Result, ok, err, ◌>>=◌, ◌>>◌, guard, assertion, out_of_range, out_of_fuel}
use fideslib.Rotations.Evaluator.{Evaluator, normalyze_index, rotate_hoisted, rotate_one}
use fideslib.Rotations.Linear.{step_indexes, sum_terms, dot_rows}

-- INTERNAL_GSTEP
abbrev pub internal_gstep : ℕ
internal_gstep = 8

unfoldable pub block_count : ℕ → ℕ
block_count gstep = (gstep + internal_gstep - 1) / internal_gstep

unfoldable pub get_convolution_transform_rotation_indices : ℤ → ℕ → List ℤ
get_convolution_transform_rotation_indices stride gstep =
    step_indexes (min gstep internal_gstep - 1) 1 stride
    ++ (if ltb 1 (block_count gstep)
        then step_indexes (block_count gstep - 1) 1 (times internal_gstep stride)
        else [])

unfoldable pub take {ℓ} : {A : Type ℓ} → ℕ → List A → List A
take zero xs = []
take (suc n) [] = []
take (suc n) (x ∷ xs) = x ∷ take n xs

unfoldable pub drop {ℓ} : {A : Type ℓ} → ℕ → List A → List A
drop zero xs = xs
drop (suc n) [] = []
drop (suc n) (x ∷ xs) = drop n xs

module _ (e : Evaluator) where
  open e use {Ct, Pt, add}

  -- Entry j of the first list plus entry j of the second, as far as both go
  unfoldable pub add_pairs : List Ct → List Ct → List Ct
  add_pairs [] ys = []
  add_pairs (x ∷ xs) [] = []
  add_pairs (x ∷ xs) (y ∷ ys) = add x y ∷ add_pairs xs ys

  -- One round: the first half of the active entries, each with the one half the number further on
  unfoldable pub halve : List Ct → List Ct
  halve xs = add_pairs (take (length xs / 2) xs) (drop (length xs / 2) xs)

  unfoldable pub head : List Ct → Result Ct
  head [] = err out_of_range
  head (x ∷ xs) = ok x

  -- while (activeStep > 1), over the active entries
  unfoldable pub tree : ℕ → List Ct → Result Ct
  tree zero xs = err out_of_fuel
  tree (suc fuel) xs = elim (ltb 1 (length xs)) [ true ↦ tree fuel (halve xs) | false ↦ head xs ]

  -- The results of a block, or of the blocks, added to one
  unfoldable pub accumulate_results : List Ct → Result Ct
  accumulate_results xs = if length xs % 2 == 0 then tree (suc (length xs)) xs else sum_terms e xs

module _ (e : Evaluator) (key : ℕ → Bool) (debug : Bool) where
  open e use {Ct, Pt, slots, ring}

  -- Unless it moves nothing
  unfoldable pub rotate_if_moving : ℤ → Ct → Result Ct
  rotate_if_moving index c =
      if normalyze_index index slots ring == 0 then ok c else rotate_one e key debug index c

  -- The rows of a block: row j of `count` by (count - j) * stride
  unfoldable pub turn_rows : ℤ → List Ct → Result (List Ct)
  turn_rows stride [] = ok []
  turn_rows stride (r ∷ rs) = do
    turned ← rotate_if_moving (times (suc (length rs)) stride) r
    rest ← turn_rows stride rs
    ok (turned ∷ rest)

  unfoldable pub convolution_block :
      (row_size b : ℕ) → List Pt → List Ct → ℤ → (gstep block : ℕ) → Result Ct
  convolution_block row_size b pts fast stride gstep block =
      let start = block * internal_gstep in
      let count = min (start + internal_gstep) gstep - start in
      dot_rows e row_size b pts fast count start >>= λ rows.
      turn_rows stride rows >>= λ turned. accumulate_results e turned

  -- n blocks from number `block` on
  unfoldable pub convolution_blocks :
      (row_size b : ℕ) → List Pt → List Ct → ℤ → (gstep n block : ℕ) → Result (List Ct)
  convolution_blocks row_size b pts fast stride gstep zero block = ok []
  convolution_blocks row_size b pts fast stride gstep (suc n) block =
      convolution_block row_size b pts fast stride gstep block >>= λ r.
      convolution_blocks row_size b pts fast stride gstep n (suc block) >>= λ rs. ok (r ∷ rs)

  -- All blocks but the last, by 8 * stride for each block behind them
  unfoldable pub turn_blocks : ℤ → List Ct → Result (List Ct)
  turn_blocks stride [] = ok []
  turn_blocks stride (r ∷ []) = ok (r ∷ [])
  turn_blocks stride (r ∷ s ∷ rs) = do
    turned ← rotate_if_moving (times (suc (length rs)) (times internal_gstep stride)) r
    rest ← turn_blocks stride (s ∷ rs)
    ok (turned ∷ rest)

  unfoldable pub convolution_transform :
      (row_size b : ℕ) → List Pt → ℤ → List ℤ → ℕ → Ct → Result Ct
  convolution_transform row_size b pts stride indexes gstep c = do
    guard (not (debug && not (length pts == row_size))) assertion
    guard (not (debug && not (length indexes == b))) assertion
    fast ← rotate_hoisted e key indexes c
    blocks ← convolution_blocks row_size b pts fast stride gstep (block_count gstep) 0
    turned ← turn_blocks stride blocks
    accumulate_results e turned
