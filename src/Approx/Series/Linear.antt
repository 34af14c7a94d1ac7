-- ===== src/Approx/Series/Linear.antt =====
-- evalChebyshevSeriesLinear: its loop adds the terms of the series.
use fideslib.Prelude.{
  ℕ, zero, suc, ◌+◌, ◌-◌, ◌≤◌, ◌<◌, ◌≡◌, refl, sym, ap, ◌∙◌, false, List, [], ◌∷◌, ltb,
  if◌then◌else◌, length, arith, Bool-cases, inl, inr,
}
use fideslib.Ckks.Result.{ok}
use fideslib.Approx.Arithmetic.{Arithmetic, add_left_comm, zero-mul}
use fideslib.Approx.Vectors.{at, terms, value}
use fideslib.Approx.Openfhe.{Openfhe, IsExact}
use fideslib.Approx.WeightedSum.Values.{table}
use fideslib.Approx.Chebyshev.{half}
use fideslib.Approx.Series.{add_terms, map_linear, eval_linear}
use fideslib.Approx.Series.Tables.{C, at-table, polynomials-table}

module _ (r : Arithmetic) where
  open r use {R, add, add_assoc, add_comm, add-zero}

  -- g 0 + ... + g (n - 1)
  sum : ℕ → (ℕ → R) → R
  sum zero g = r.zero
  sum (suc n) g = add (g 0) (sum n (λ j. g (suc j)))

  sum_congr : (n : ℕ) (g h : ℕ → R) → ((j : ℕ) → j < n → g j ≡ h j) → sum n g ≡ sum n h
  unfolding sum
  sum_congr zero g h e = refl
  sum_congr (suc n) g h e =
      ap (λ (a : R). add a (sum n (λ j. g (suc j)))) (e 0 (omega arith))
      ∙ ap (add (h 0))
          (sum_congr n (λ j. g (suc j)) (λ j. h (suc j)) (λ j l. e (suc j) (omega (arith, l))))

  sum_last : (n : ℕ) (g : ℕ → R) → sum (suc n) g ≡ add (sum n g) (g n)
  unfolding sum
  sum_last zero g = add_comm (g 0) r.zero
  sum_last (suc n) g =
      ap (add (g 0)) (sum_last n (λ j. g (suc j))) ∙ sym (add_assoc (g 0) _ (g (suc n)))

  module _ (lib : Openfhe r) (x : IsExact r lib) (y : R) where
    -- The term of T_i
    term : List R → ℕ → R
    term f i = r.mul (at r f i) (C r lib y i)

    terms-sum :
        (i : ℕ) (cs : List R)
        → terms r (half r lib) (C r lib y) i cs
          ≡ sum (length cs) (λ j. r.mul (at r cs j) (C r lib y (i + j)))
    unfolding terms sum at
    terms-sum i [] = refl
    terms-sum i (c ∷ cs) =
        let z : i + 0 ≡ i = omega arith in
        rw z (
          ap (add (r.mul c (C r lib y i))) (
            terms-sum (suc i) cs
            ∙ sum_congr (length cs) _ _
                (λ j l. ap (λ (n : ℕ). r.mul (at r cs j) (C r lib y n)) (omega arith))))

    value-sum :
        (c : R) (cs : List R)
        → value r (half r lib) (C r lib y) (c ∷ cs)
          ≡ add (half r lib c) (sum (length cs) (λ j. term (c ∷ cs) (suc j)))
    unfolding value term at
    value-sum c cs = ap (add (half r lib c)) (
        terms-sum 1 cs
        ∙ sum_congr (length cs) _ _
            (λ j l. ap (λ (n : ℕ). r.mul (at r cs j) (C r lib y n)) (omega arith)))

    add_term :
        (c t acc : R)
        → (if lib.not_equal_zero c then add acc (r.mul t c) else acc) ≡ add acc (r.mul c t)
    add_term c t acc = elim (Bool-cases (lib.not_equal_zero c)) [
      | inl some ↦ rw (some, r.mul_comm t c)
      | inr none ↦ rw none (
          sym (
            ap (λ (a : R). add acc (r.mul a t)) (x.zero_test c none)
            ∙ ap (add acc) (zero-mul r t)
            ∙ add-zero acc))
    ]

    -- The loop, on the table of the first n polynomials
    add_terms-sum :
        (k i n : ℕ) (f : List R) (acc : R)
        → i + k ≤ n
        → add_terms r lib k i (table (C r lib y) 1 n) f acc
          ≡ add acc (sum k (λ j. term f (suc (i + j))))
    unfolding add_terms sum term
    add_terms-sum zero i n f acc h = sym (add-zero acc)
    add_terms-sum (suc k) i n f acc h =
        let here = add_term (at r f (suc i)) (at r (table (C r lib y) 1 n) i) acc in
        let entry = at-table r (C r lib y) n 1 i (omega (arith, h)) in
        let one_more : 1 + i ≡ suc i = omega arith in
        let shift =
          sum_congr k (λ j. term f (suc (suc i + j))) (λ j. term f (suc (i + suc j)))
            (λ j l. ap (λ (m : ℕ). term f (suc m)) (omega arith)) in
        rw (here, entry, one_more)
          (add_terms-sum k (suc i) n f (add acc (term f (suc i))) (omega (arith, h))
            ∙ add_assoc acc (term f (suc i)) (sum k (λ j. term f (suc (suc i + j))))
            ∙ ap (λ (a : R). add acc (add (term f (suc i)) a)) shift
            ∙ ap (λ (m : ℕ). add acc (add (term f (suc m)) (sum k (λ j. term f (suc (i + suc j))))))
                (omega arith))

    -- The whole evaluation: the last term first, and the constant one at the end
    pub eval_linear-value :
        (f : List R) (a b s : R)
        → 2 ≤ length f
        → map_linear r lib a b s ≡ y
        → eval_linear r lib f a b s ≡ ok (value r (half r lib) (C r lib y) f)
    unfolding eval_linear at term
    eval_linear-value [] a b s len mapped = absurd (omega (arith, len))
    eval_linear-value (c ∷ cs) a b s len mapped =
        let f = c ∷ cs in
        let k = length f - 2 in
        let n : length cs ≡ suc k = omega (arith, len) in
        let fine : ltb (length f) 2 ≡ false = ground (arith, len) in
        let entry = at-table r (C r lib y) (suc k) 1 k (omega arith) in
        let one_more : 1 + k ≡ suc k = omega arith in
        let top : r.mul (at r (table (C r lib y) 1 (suc k)) k) (at r f (suc k)) ≡ term f (suc k) =
          ap (λ (t : R). r.mul t (at r f (suc k))) (entry ∙ ap (C r lib y) one_more)
          ∙ r.mul_comm (C r lib y (suc k)) (at r f (suc k)) in
        let loop = add_terms-sum k 0 (suc k) f (term f (suc k)) (omega arith) in
        let named =
          sum_congr k (λ j. term f (suc (0 + j))) (λ j. term f (suc j))
            (λ j l. ap (λ (m : ℕ). term f (suc m)) (omega arith)) in
        let spec =
          value-sum c cs
          ∙ ap (λ (m : ℕ). add (half r lib c) (sum m (λ j. term f (suc j)))) n
          ∙ ap (add (half r lib c)) (sum_last k (λ j. term f (suc j))) in
        rw (mapped, polynomials-table r lib y k, fine, top, loop, named, spec)
          (ap ok (simp (add_assoc, add_comm, add_left_comm r)))
