-- ===== src/Approx/Powers/Sums.antt =====
-- The weighted sums of innerEvalPolyPS: its terminal nodes and its corrections.
use fideslib.Prelude.{
  ℕ, zero, suc, ◌+◌, ◌-◌, ◌≤◌, ◌≡◌, refl, sym, ap, ◌∙◌, true, List, [], ◌∷◌, ltb, ◌==◌,
  if◌then◌else◌, length, arith, Bool-cases, inl, inr,
}
use fideslib.Ckks.Result.{ok}
use fideslib.Approx.Arithmetic.{Arithmetic, add_left_comm, zero-add, one-mul}
use fideslib.Approx.Vectors.{at, resize, terms, value, length-resize, terms-resize}
use fideslib.Approx.Openfhe.{Openfhe, IsExact}
use fideslib.Approx.Split.Values.{value-constant}
use fideslib.Approx.WeightedSum.Values.{table}
use fideslib.Approx.Chebyshev.{double_at}
use fideslib.Approx.Series.Tables.{double_at-table}
use fideslib.Approx.Powers.{weighted_products, partial_sum, leading_node, correction}

module _ (r : Arithmetic) (lib : Openfhe r) (x : IsExact r lib) (B : ℕ → r.R) where
  open r use {R, add, mul, add_assoc, add_comm, add-zero, mul_comm}

  abbrev same : R → R
  same c = c

  abbrev pub V : List R → R
  V f = value r same B f

  products-terms :
      (ws : List R) (n i k : ℕ)
      → n ≤ length ws
      → n ≤ k
      → weighted_products r lib n ws (table B i k) ≡ ok (terms r same B i (resize r n ws))
  unfolding weighted_products terms resize table
  products-terms ws zero i k h l = refl
  products-terms [] (suc n) i k h l = absurd (omega (arith, h))
  products-terms (w ∷ ws) (suc n) i zero h l = absurd (omega (arith, l))
  products-terms (w ∷ ws) (suc n) i (suc k) h l =
      rw (products-terms ws n (suc i) k (omega (arith, h)) (omega (arith, l)), mul_comm (B i) w)

  at-beyond : (f : List R) (j : ℕ) → length f ≤ j → at r f j ≡ r.zero
  unfolding at
  at-beyond [] j h = refl
  at-beyond (c ∷ cs) zero h = absurd (omega (arith, h))
  at-beyond (c ∷ cs) (suc j) h = at-beyond cs j (omega (arith, h))

  degree_fits : (c : R) (cs : List R) → lib.degree (c ∷ cs) ≤ length cs
  degree_fits c cs = x.least (c ∷ cs) (length cs) (λ i h. at-beyond (c ∷ cs) i (omega (arith, h)))

  -- The sum up to the degree is the series without its constant term.
  pub partial_sum-terms :
      (c : R) (cs : List R) (k : ℕ)
      → lib.degree (c ∷ cs) ≤ k
      → partial_sum r lib (table B 1 k) (c ∷ cs) (lib.degree (c ∷ cs)) ≡ ok (terms r same B 1 cs)
  unfolding partial_sum at
  partial_sum-terms c cs k h =
      products-terms cs (lib.degree (c ∷ cs)) 1 k (degree_fits c cs) h
      ∙ ap ok (
          terms-resize r same B (lib.degree (c ∷ cs)) 1 cs
            (λ j l. x.above (c ∷ cs) (suc j) (omega (arith, l))))

  -- The last coefficient is one.
  terms-leading :
      (k i : ℕ) (f : List R)
      → length f ≡ suc k
      → at r f k ≡ r.one
      → terms r same B i f ≡ add (terms r same B i (resize r k f)) (B (k + i))
  unfolding terms resize at
  terms-leading k i [] len lead = absurd (omega (arith, len))
  terms-leading zero i (c ∷ []) len lead =
      let e : 0 + i ≡ i = omega arith in
      rw (lead, e) (add-zero (mul r.one (B i)) ∙ one-mul r (B i) ∙ sym (zero-add r (B i)))
  terms-leading zero i (c ∷ d ∷ ds) len lead = absurd (omega (arith, len))
  terms-leading (suc k) i (c ∷ cs) len lead =
      let e : k + suc i ≡ suc k + i = omega arith in
      let rest = terms r same B (suc i) (resize r k cs) in
      ap (add (mul c (B i))) (terms-leading k (suc i) cs (omega (arith, len)) lead)
      ∙ sym (add_assoc (mul c (B i)) rest (B (k + suc i)))
      ∙ ap (λ (j : ℕ). add (add (mul c (B i)) rest) (B j)) e

  -- A terminal node
  pub leading_node-value :
      (k : ℕ) (f : List R)
      → 1 ≤ k
      → length f ≡ suc k
      → at r f k ≡ r.one
      → leading_node r lib k (table B 1 k) f ≡ ok (V f)
  unfolding leading_node at resize value
  leading_node-value zero f kp len lead = absurd (omega (arith, kp))
  leading_node-value (suc k) [] kp len lead = absurd (omega (arith, len))
  leading_node-value (suc k) (c ∷ cs) kp len lead =
      let g = c ∷ resize r k cs in
      let S = terms r same B 1 (resize r k cs) in
      let last : double_at (table B 1 (suc k)) (suc k) ≡ ok (B (suc k)) =
        double_at-table B (suc k) 1 (suc k) kp (omega arith)
        ∙ ap (λ (j : ℕ). ok (B j)) (let i : 1 + suc k - 1 ≡ suc k = omega arith in i) in
      let e : k + 1 ≡ suc k = omega arith in
      let whole : add (V g) (B (suc k)) ≡ V (c ∷ cs) =
        add_assoc c S (B (suc k))
        ∙ ap (λ (j : ℕ). add c (add S (B j))) (sym e)
        ∙ ap (add c) (sym (terms-leading k 1 cs (omega (arith, len)) lead)) in
      rw last (elim (Bool-cases (ltb 0 (lib.degree g))) [
        | inl high ↦
            let sum = partial_sum-terms c (resize r k cs) (suc k) (
              let fits = degree_fits c (resize r k cs) in
              let l = length-resize r k cs in omega (arith, fits, l)) in
            rw (high, sum) (ap ok (add_assoc _ _ _ ∙ add_comm _ _ ∙ whole))
        | inr low ↦
            let flat : V g ≡ c =
              value-constant r lib x same B refl c (resize r k cs) (ground (arith, low)) in
            rw low (
              ap ok (add_comm (B (suc k)) c ∙ ap (λ (v : R). add v (B (suc k))) (sym flat) ∙ whole))
      ])

  -- A correction of degree one
  linear_terms :
      (c d : R) (ds : List R)
      → lib.degree (c ∷ d ∷ ds) ≡ 1
      → terms r same B 1 (d ∷ ds) ≡ mul (B 1) d
  unfolding at terms resize
  linear_terms c d ds h =
      sym (
        terms-resize r same B 1 1 (d ∷ ds)
          (λ j l. x.above (c ∷ d ∷ ds) (suc j) (omega (arith, h, l))))
      ∙ add-zero (mul d (B 1))
      ∙ mul_comm d (B 1)

  linear_lem :
      (c d t : R)
      → add (if lib.not_equal_one d then add (mul (B 1) d) t else add t (B 1)) c
        ≡ add (add c (mul (B 1) d)) t
  linear_lem c d t = elim (Bool-cases (lib.not_equal_one d)) [
    | inl other ↦ rw other (simp (add_assoc, add_comm, add_left_comm r))
    | inr one ↦
        let e : mul (B 1) d ≡ B 1 = ap (mul (B 1)) (x.one_test d one) ∙ r.mul-one (B 1) in
        rw (one, e) (simp (add_assoc, add_comm, add_left_comm r))
  ]

  -- The correction of a step
  pub correction-value :
      (k : ℕ) (c : List R) (t : R)
      → 1 ≤ k
      → 1 ≤ length c
      → length c ≤ suc k
      → correction r lib (table B 1 k) c t ≡ ok (add (V c) t)
  unfolding correction at value
  correction-value k [] t kp some short = absurd (omega (arith, some))
  correction-value k (c ∷ []) t kp some short =
      let fits = degree_fits c [] in
      let n : lib.degree (c ∷ []) ≡ 0 = omega (arith, fits) in
      let flat = value-constant r lib x same B refl c [] n in
      let z : (lib.degree (c ∷ []) == 0) ≡ true = ground (arith, n) in
      rw (z, flat) (ap ok (add_comm t c))
  correction-value k (c ∷ d ∷ ds) t kp some short =
      let cs = d ∷ ds in
      let S = terms r same B 1 cs in
      let n = lib.degree (c ∷ cs) in
      let fits = degree_fits c cs in
      let sum = partial_sum-terms c cs k (omega (arith, fits, short)) in
      elim (Bool-cases (n == 0)) [
        | inl none ↦
            let flat : add c S ≡ c =
              value-constant r lib x same B refl c cs (ground (arith, none)) in
            rw (none, flat) (ap ok (add_comm t c))
        | inr more ↦ elim (Bool-cases (n == 1)) [
          | inl one ↦
              let linear : S ≡ mul (B 1) d = linear_terms c d ds (ground (arith, one)) in
              let first : double_at (table B 1 k) 1 ≡ ok (B 1) =
                double_at-table B k 1 1 (omega arith) kp in
              rw (more, one, first)
                (ap ok (linear_lem c d t ∙ ap (λ (s : R). add (add c s) t) (sym linear)))
          | inr many ↦ rw (more, many, sum) (ap ok (simp (add_assoc, add_comm, add_left_comm r)))
        ]
      ]
