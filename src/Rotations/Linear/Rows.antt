-- ===== src/Rotations/Linear/Rows.antt =====
-- The rows of LinearTransform, one for each giant step, and the loop that adds them up.
use fideslib.Prelude.{
  ℕ, zero, suc, ◌+◌, ◌-◌, ◌*◌, ◌/◌, ◌≤◌, ◌<◌, ◌≡◌, ◌∙◌, sym, ap, refl, Bool, true, false, List, [],
  ◌∷◌, ltb, map, arith, min,
}
use native.Mathlib.Nat.{mul-add-div, div-eq_of_lt}
use fideslib.Prelude.Int.{ℤ, times, ◌+ℤ◌, times-add, opposite, +ℤ_right_comm}
use fideslib.Ckks.Result.{ok}
use fideslib.Rotations.Evaluator.{Evaluator}
use fideslib.Rotations.Linear.{
  plaintext_index, at, total, sum_terms, dot_terms, dot_rows, fold_rows, giant_rotate,
}
use fideslib.Rotations.Linear.Sums.{diagonals, diagonals-append, sum_terms-append, sum_terms-rotate}
use fideslib.Rotations.Linear.Keys.{fasts}

-- The rows, for plaintexts that are the q k rotated by the index of their row
module _ (e : Evaluator) (row_size b : ℕ) (stride offset : ℤ) (q : ℕ → e.Pt) (c : e.Ct)
    (pts : List e.Pt) (bp : 0 < b)
    (pts_at : (i : ℕ)
      → i < row_size
      → at pts i ≡ ok (e.rotate_pt (plaintext_index b stride offset (i / b)) (q i))) where
  open e use {
    Ct, Pt, add, mult_pt, rotate, rotate_pt, rotate-add, rotate-rotate, rotate-mult_pt,
    rotate_pt-rotate_pt, rotate_pt_zero,
  }

  -- The rotation that the results of giant step j undergo in all
  abbrev pub turn : ℕ → ℤ
  turn j = times (b * j) stride +ℤ offset

  turn_product :
      (i j : ℕ)
      → rotate (turn j) (
          mult_pt
            (rotate (times i stride) c)
            (rotate_pt (plaintext_index b stride offset j) (q (b * j + i))))
        ≡ mult_pt (rotate (times (b * j + i) stride +ℤ offset) c) (q (b * j + i))
  unfolding plaintext_index
  turn_product i j =
      let at_i : turn j +ℤ times i stride ≡ times (b * j + i) stride +ℤ offset =
        +ℤ_right_comm (times (b * j) stride) offset (times i stride)
        ∙ ap (λ (x : ℤ). x +ℤ offset) (sym (times-add (b * j) i stride)) in
      rw (rotate-mult_pt, rotate-rotate, rotate_pt-rotate_pt, at_i, opposite, rotate_pt_zero)

  row_of : (i j : ℕ) → i < b → (b * j + i) / b ≡ j
  row_of i j h = mul-add-div bp j i ∙ ap (λ (x : ℕ). j + x) (div-eq_of_lt h) ∙ omega arith

  -- The products of row j from entry i on, number k, and what they are once they are turned
  abbrev Products : (n i j k m : ℕ) → Type 0
  Products n i j k m =
      (ts : List Ct) × (dot_terms e row_size pts k (fasts e c stride n i) ≡ ok ts)
      × (map (rotate (turn j)) ts ≡ diagonals e q stride offset c m k)

  Products-inside :
      (n i j k m : ℕ)
      → k ≡ b * j + i
      → i < b
      → k < row_size
      → Products n (suc i) j (suc k) m
      → Products (suc n) i j k (suc m)
  unfolding dot_terms fasts diagonals
  Products-inside n i j k m kj h inside (ts, d, r) =
      let test : ltb k row_size ≡ true = ground arith in
      let row : k / b ≡ j = ap (λ (x : ℕ). x / b) kj ∙ row_of i j h in
      let here = rw row at (pts_at k inside) in
      let turned = turn_product i j in
      let turned' = rw (sym kj) at turned in
      (
        mult_pt (rotate (times i stride) c) (rotate_pt (plaintext_index b stride offset j) (q k))
            ∷ ts,
        rw (test, here, d) refl,
        rw (turned', r),
      )

  Products-outside :
      (n i j k : ℕ) → row_size ≤ k → Products n (suc i) j (suc k) 0 → Products (suc n) i j k 0
  unfolding dot_terms fasts diagonals
  Products-outside n i j k outside (ts, d, r) =
      let test : ltb k row_size ≡ false = ground arith in (ts, rw (test, d), r)

  products :
      (n i j k m : ℕ) → k ≡ b * j + i → i + n ≤ b → m ≡ min n (row_size - k) → Products n i j k m
  unfolding dot_terms fasts diagonals
  products zero i j k zero e1 h p = ([], refl, refl)
  products zero i j k (suc m) e1 h p = absurd (omega arith)
  products (suc n) i j k zero e1 h p =
      Products-outside n i j k (omega arith)
        (products n (suc i) j (suc k) zero (omega arith) (omega arith) (omega arith))
  products (suc n) i j k (suc m) e1 h p =
      Products-inside n i j k m e1 (omega arith) (omega arith)
        (products n (suc i) j (suc k) m (omega arith) (omega arith) (omega arith))

  -- The sum of a row, and what it is once it is turned
  abbrev Row : (j m k : ℕ) → Ct → Type 0
  Row j m k s =
      (ts : List Ct) × (dot_terms e row_size pts k (fasts e c stride b 0) ≡ ok ts)
      × (sum_terms e ts ≡ ok s)
      × (sum_terms e (diagonals e q stride offset c m k) ≡ ok (rotate (turn j) s))

  Row-sum : (j k m : ℕ) → Products b 0 j k (suc m) → (s : Ct) × Row j (suc m) k s
  unfolding diagonals sum_terms
  Row-sum j k m ([], d, r) = absurd (cc)
  Row-sum j k m (x ∷ xs, d, r) = (
    total e x xs,
    (x ∷ xs, d, refl, ap (sum_terms e) (sym r) ∙ sum_terms-rotate e (turn j) (x ∷ xs) refl),
  )

  row : (j k m : ℕ) → k ≡ b * j → k < row_size → m ≡ min b (row_size - k) → (s : Ct) × Row j m k s
  row j k zero e1 h p = absurd (omega arith)
  row j k (suc m) e1 h p = Row-sum j k m (products b 0 j k (suc m) (omega arith) (omega arith) p)

  -- The loop over the giant steps, from step j on
  module _ (key : ℕ → Bool) (debug : Bool)
      (giant : (v : Ct)
        → giant_rotate e key debug (times b stride) v ≡ ok (rotate (times b stride) v)) where
    abbrev pub Folded : (g j k : ℕ) → Type 0
    Folded g j k =
        (r : Ct) × (rs : List Ct) × (v : Ct) × (dot_rows e row_size b pts (fasts e c stride b 0)
            (suc g) j
          ≡ ok (r ∷ rs))
        × (fold_rows e key debug (times b stride) (r ∷ rs) ≡ ok v)
        × (sum_terms e (diagonals e q stride offset c (row_size - k) k) ≡ ok (rotate (turn j) v))

    next_turn : (j : ℕ) → turn j +ℤ times b stride ≡ turn (suc j)
    next_turn j =
        +ℤ_right_comm (times (b * j) stride) offset (times b stride)
        ∙ ap (λ (x : ℤ). x +ℤ offset)
            (sym (times-add (b * j) b stride)
              ∙ ap (λ (x : ℕ). times x stride) (let s : b * j + b ≡ b * suc j = omega arith in s))

    fold_last :
        (j k m : ℕ) → k ≡ b * j → m ≡ row_size - k → ((s : Ct) × Row j m k s) → Folded zero j k
    unfolding dot_rows fold_rows
    fold_last j k m e1 e2 (s, (ts, d, sum, whole)) =
        (s, [], s, rw (sym e1, d, sum), refl, rw (sym e2) whole)

    fold_more :
        (g j k : ℕ)
        → k ≡ b * j
        → k + b < row_size
        → ((s : Ct) × Row j b k s)
        → Folded g (suc j) (k + b)
        → Folded (suc g) j k
    unfolding dot_rows fold_rows
    fold_more g j k e1 h (s, (ts, d, sum, whole)) (r, rs, v, rest, folded, sum') =
        let split : row_size - k ≡ b + (row_size - (k + b)) = omega arith in
        let all =
          sum_terms-append e (diagonals e q stride offset c b k)
            (diagonals e q stride offset c (row_size - (k + b)) (k + b)) whole sum' in
        let turned : add (rotate (turn j) s) (rotate (turn (suc j)) v)
            ≡ rotate (turn j) (add s (rotate (times b stride) v)) =
          rw (rotate-add, rotate-rotate, next_turn j) in
        (
          s,
          r ∷ rs,
          add s (rotate (times b stride) v),
          rw (sym e1, d, sum, rest),
          rw (folded, giant v),
          rw (split, diagonals-append e q stride offset c b (row_size - (k + b)) k, all, turned),
        )

    pub fold_lem :
        (g j k : ℕ) → k ≡ b * j → k + b * g < row_size → row_size ≤ k + b * g + b → Folded g j k
    fold_lem zero j k e1 h h' =
        fold_last j k (row_size - k) e1 refl (row j k (row_size - k) e1 (omega arith) (omega arith))
    fold_lem (suc g) j k e1 h h' =
        let next = fold_lem g (suc j) (k + b) (omega arith) (omega arith) (omega arith) in
        let less : k + b < row_size = omega arith in
        fold_more g j k e1 less (row j k b e1 (omega arith) (omega arith)) next
