-- ===== src/Rotations/Convolution/Keys.antt =====
-- ConvolutionTransform of a single block, up to 8 rows: its result, and the key that
-- GetConvolutionTransformRotationIndices does not list.
use fideslib.Prelude.{
  ℕ, zero, suc, ◌+◌, ◌-◌, ◌*◌, ◌/◌, ◌%◌, ◌^◌, ◌≤◌, ◌<◌, ◌≡◌, ◌≢◌, ◌⊎◌, ◌∙◌, sym, ap, refl, inl, inr,
  Bool, true, false, not, ◌&&◌, List, [], ◌∷◌, ◌==◌, length, arith, Bool-cases, ==_iff, min,
}
use mathlib.Core.List.{append-nil}
use fideslib.Prelude.Int.{ℤ, times}
use fideslib.Ckks.Result.{
  Result, ok, err, ◌>>=◌, guard, assertion, missing_key, ok-injective, >>=-eq-ok,
}
use fideslib.Rotations.Evaluator.{
  Evaluator, normalyze_index, rotate_hoisted, rotate_one, served, all_served,
}
use fideslib.Rotations.Linear.{step_indexes, sum_terms, total, dot_terms, dot_rows}
use fideslib.Rotations.Linear.Keys.{step_indexes_last, all_served-append, served_head}
use fideslib.Rotations.Convolution.{
  internal_gstep, block_count, get_convolution_transform_rotation_indices, accumulate_results,
  rotate_if_moving, turn_rows, convolution_block, convolution_blocks, turn_blocks,
  convolution_transform,
}
use fideslib.Rotations.Convolution.Tree.{accumulate_results-sums}

length-dot_rows :
    (e : Evaluator) (row_size b : ℕ) (pts : List e.Pt) (fast : List e.Ct) (g j : ℕ)
    (rows : List e.Ct)
    → dot_rows e row_size b pts fast g j ≡ ok rows
    → length rows ≡ g
unfolding dot_rows
length-dot_rows e row_size b pts fast zero j rows h = sym (ap length (ok-injective [] rows h))
length-dot_rows e row_size b pts fast (suc g) j rows h =
    let more = dot_rows e row_size b pts fast g (suc j) in
    let add_row = λ (s : e.Ct). more >>= λ (rest : List e.Ct). ok (s ∷ rest) in
    let (ts, d, h1) =
      >>=-eq-ok (dot_terms e row_size pts (b * j) fast) (λ ts. sum_terms e ts >>= add_row) h in
    let (s, t, h2) = >>=-eq-ok (sum_terms e ts) add_row h1 in
    let (rest, r, h3) = >>=-eq-ok more (λ rest. ok (s ∷ rest)) h2 in
    sym (ap length (ok-injective (s ∷ rest) rows h3))
    ∙ ap suc (length-dot_rows e row_size b pts fast g (suc j) rest r)

asserted : (debug : Bool) (x y : ℕ) → x ≡ y → guard (not (debug && not (x == y))) assertion ≡ ok tt
asserted true x y h = ground arith
asserted false x y h = refl

-- The rows of a block, each rotated
unfoldable pub turned_rows : (e : Evaluator) → ℤ → List e.Ct → List e.Ct
turned_rows e stride [] = []
turned_rows e stride (r ∷ rs) =
    e.rotate (times (suc (length rs)) stride) r ∷ turned_rows e stride rs

length-turned_rows :
    (e : Evaluator) (stride : ℤ) (rows : List e.Ct)
    → length (turned_rows e stride rows) ≡ length rows
unfolding turned_rows
length-turned_rows e stride [] = refl
length-turned_rows e stride (r ∷ rs) = ap suc (length-turned_rows e stride rs)

module _ (e : Evaluator) (key : ℕ → Bool) (debug : Bool) (stride : ℤ) where
  open e use {Ct, Pt, slots, ring, rotate, rotate_still}

  moving_served :
      (i : ℤ) (c : Ct) → served e key i ≡ true → rotate_if_moving e key debug i c ≡ ok (rotate i c)
  unfolding served rotate_if_moving rotate_one
  moving_served i c h = elim (Bool-cases (normalyze_index i slots ring == 0)) [
    | inl none ↦ let same = rotate_still i c (ground arith) in rw (none, same)
    | inr moves ↦ ground (arith, h, moves)
  ]

  turn_rows_lem :
      (rows : List Ct)
      → all_served e key (step_indexes (length rows) 1 stride) ≡ true
      → turn_rows e key debug stride rows ≡ ok (turned_rows e stride rows)
  unfolding turn_rows turned_rows
  turn_rows_lem [] h = refl
  turn_rows_lem (r ∷ rs) h =
      let h' = rw (step_indexes_last (length rs) 1 stride) at h in
      let (rest, last) = all_served-append e key (step_indexes (length rs) 1 stride) _ h' in
      let s : 1 + length rs ≡ suc (length rs) = omega arith in
      let here =
        moving_served (times (suc (length rs)) stride) r (rw s at (served_head e key _ last)) in
      let more = turn_rows_lem rs rest in rw (here, more)

  turn_rows_stuck :
      (r : Ct) (rs : List Ct)
      → normalyze_index (times (suc (length rs)) stride) slots ring ≢ 0
      → key (normalyze_index (times (suc (length rs)) stride) slots ring) ≡ false
      → turn_rows e key debug stride (r ∷ rs) ≡ err missing_key
  unfolding turn_rows rotate_if_moving rotate_one
  turn_rows_stuck r rs moves none =
      let test : (normalyze_index (times (suc (length rs)) stride) slots ring == 0) ≡ false =
        ground (arith, moves) in
      ground (arith, test, none)

  turn_rows_first :
      (rows : List Ct) (g : ℕ)
      → length rows ≡ g
      → 0 < g
      → normalyze_index (times g stride) slots ring ≢ 0
      → key (normalyze_index (times g stride) slots ring) ≡ false
      → turn_rows e key debug stride rows ≡ err missing_key
  turn_rows_first [] g len p moves none = absurd (omega arith)
  turn_rows_first (r ∷ rs) g len p moves none =
      turn_rows_stuck r rs (rw (sym len) at moves) (rw (sym len) at none)

  -- A call of a single block
  module _ (row_size b gstep : ℕ) (pts : List Pt) (indexes : List ℤ) (c : Ct) (fast rows : List Ct)
      (some_rows : 0 < gstep) (one_block : gstep ≤ 8) (all_pts : length pts ≡ row_size)
      (all_indexes : length indexes ≡ b) (rotated : rotate_hoisted e key indexes c ≡ ok fast)
      (dots : dot_rows e row_size b pts fast gstep 0 ≡ ok rows) where
    block_lem :
        convolution_block e key debug row_size b pts fast stride gstep 0
        ≡ (turn_rows e key debug stride rows >>= accumulate_results e)
    unfolding convolution_block
    block_lem =
        let count : min (0 * internal_gstep + internal_gstep) gstep - 0 * internal_gstep ≡ gstep =
          omega arith in
        rw (count, dots)

    block_result :
        (result : Result Ct)
        → (turn_rows e key debug stride rows >>= accumulate_results e) ≡ result
        → convolution_transform e key debug row_size b pts stride indexes gstep c ≡ result
    unfolding convolution_transform convolution_blocks turn_blocks block_count accumulate_results
        sum_terms total
    block_result (err why) h =
        let n : (gstep + 8 - 1) / 8 ≡ 1 = omega arith in
        rw (asserted debug _ _ all_pts, asserted debug _ _ all_indexes, rotated, n, block_lem, h)
    block_result (ok r) h =
        let n : (gstep + 8 - 1) / 8 ≡ 1 = omega arith in
        rw (asserted debug _ _ all_pts, asserted debug _ _ all_indexes, rotated, n, block_lem, h)

sum_some : (e : Evaluator) (xs : List e.Ct) → 0 < length xs → (r : e.Ct) × (sum_terms e xs ≡ ok r)
unfolding sum_terms
sum_some e [] h = absurd (omega arith)
sum_some e (x ∷ xs) h = (total e x xs, refl)

-- An odd number of rows up to 8, or a power of two
small_counts : (g : ℕ) → 0 < g → g ≤ 8 → g ≢ 6 → (k : ℕ) × ((g % 2 ≡ 1) ⊎ (g ≡ 2 ^ k))
small_counts g p q r = elim (Bool-cases (g % 2 == 1)) [
  | inl odd ↦ (0, inl ((==_iff _ 1).0 odd))
  | inr even ↦ elim (Bool-cases (g == 2)) [
    | inl two ↦ (1, inr ((==_iff _ 2).0 two))
    | inr other ↦ elim (Bool-cases (g == 4)) [
      | inl four ↦ (2, inr ((==_iff _ 4).0 four))
      | inr rest ↦ (3, inr (ground arith))
    ]
  ]
]

-- ConvolutionTransform with gStep rows, from 1 to 8 but not 6, as many plaintexts as rowSize, one
-- index for each baby step, with baby rotations `fast` and dot products `rows`. If each rotation by
-- stride, ..., gStep * stride has a key or moves nothing, the call returns, with assertions or
-- without, and its result is the sum of the rows, row j rotated by (gStep - j) * stride.
pub convolution_transform-sums :
    (e : Evaluator) (key : ℕ → Bool) (debug : Bool) (stride : ℤ) (row_size b gstep : ℕ)
    (pts : List e.Pt) (indexes : List ℤ) (c : e.Ct) (fast rows : List e.Ct)
    → 0 < gstep
    → gstep ≤ 8
    → gstep ≢ 6
    → length pts ≡ row_size
    → length indexes ≡ b
    → rotate_hoisted e key indexes c ≡ ok fast
    → dot_rows e row_size b pts fast gstep 0 ≡ ok rows
    → all_served e key (step_indexes gstep 1 stride) ≡ true
    → (r : e.Ct) × (convolution_transform e key debug row_size b pts stride indexes gstep c ≡ ok r)
      × (sum_terms e (turned_rows e stride rows) ≡ ok r)
convolution_transform-sums e key debug stride row_size b gstep pts indexes c fast rows p q r hp hi
      hf hd keys =
    let len = length-dot_rows e row_size b pts fast gstep 0 rows hd in
    let turned = turn_rows_lem e key debug stride rows (rw (sym len) at keys) in
    let (k, shape) = small_counts gstep p q r in
    let len' : length (turned_rows e stride rows) ≡ gstep =
      length-turned_rows e stride rows ∙ len in
    let sums = accumulate_results-sums e (turned_rows e stride rows) k (rw (sym len') at shape) in
    let (result, s) = sum_some e (turned_rows e stride rows) (omega arith) in
    (
      result,
      block_result e key debug stride row_size b gstep pts indexes c fast rows p q hp hi hf hd
          (ok result) (rw turned (sums ∙ s)),
      s,
    )

-- ConvolutionTransform with gStep rows, from 1 to 8, as many plaintexts as rowSize, one index for
-- each baby step, with baby rotations `fast` and dot products `rows`:
-- GetConvolutionTransformRotationIndices lists stride, ..., (gStep - 1) * stride, and the call ends in
-- missing_key, with assertions or without, when gStep * stride moves something and has no key.
pub convolution_transform-misses :
    (e : Evaluator) (key : ℕ → Bool) (debug : Bool) (stride : ℤ) (row_size b gstep : ℕ)
    (pts : List e.Pt) (indexes : List ℤ) (c : e.Ct) (fast rows : List e.Ct)
    → 0 < gstep
    → gstep ≤ 8
    → length pts ≡ row_size
    → length indexes ≡ b
    → rotate_hoisted e key indexes c ≡ ok fast
    → dot_rows e row_size b pts fast gstep 0 ≡ ok rows
    → normalyze_index (times gstep stride) e.slots e.ring ≢ 0
    → key (normalyze_index (times gstep stride) e.slots e.ring) ≡ false
    → (get_convolution_transform_rotation_indices stride gstep ≡ step_indexes (gstep - 1) 1 stride)
      × (convolution_transform e key debug row_size b pts stride indexes gstep c ≡ err missing_key)
unfolding get_convolution_transform_rotation_indices block_count
convolution_transform-misses e key debug stride row_size b gstep pts indexes c fast rows p q hp hi
      hf hd moves none =
    let len = length-dot_rows e row_size b pts fast gstep 0 rows hd in
    let count : min gstep 8 - 1 ≡ gstep - 1 = omega arith in
    let blocks : (gstep + 8 - 1) / 8 ≡ 1 = omega arith in
    let stuck = turn_rows_first e key debug stride rows gstep len p moves none in
    (
      rw (count, blocks) (append-nil _),
      block_result e key debug stride row_size b gstep pts indexes c fast rows p q hp hi hf hd
          (err missing_key) (rw stuck),
    )
