-- ===== src/Approx/WeightedSum/Values.antt =====
-- The weighted sums over the elements of a basis are values of series.
use fideslib.Prelude.{
  ℕ, zero, suc, ◌-◌, ◌≤◌, ◌<◌, ◌≡◌, ◌≢◌, refl, sym, ap, subst, ◌∙◌, false, List, [], ◌∷◌, ◌==◌,
  if◌then◌else◌, length, arith, Bool-cases, inl, inr,
}
use fideslib.Ckks.Result.{ok, err, ◌>>=◌, out_of_range}
use fideslib.Approx.Arithmetic.{Arithmetic, zero-mul, zero-add}
use fideslib.Approx.Vectors.{at, terms, value}
use fideslib.Approx.Openfhe.{Openfhe, IsExact}
use fideslib.Approx.WeightedSum.{weighted_terms, weighted_sum, prepend, trim, batched_sum}

-- B i, B (i + 1), ..., n of them
unfoldable pub table {ℓ} : {A : Type ℓ} → (ℕ → A) → (i n : ℕ) → List A
table B i zero = []
table B i (suc n) = B i ∷ table B (suc i) n

pub length-table {ℓ} : {A : Type ℓ} (B : ℕ → A) (i n : ℕ) → length (table B i n) ≡ n
unfolding table
length-table B i zero = refl
length-table B i (suc n) = ap suc (length-table B (suc i) n)

module _ (r : Arithmetic) (lib : Openfhe r) (x : IsExact r lib) (bias : r.R → r.R)
    (B : ℕ → r.R) where
  open r use {R, add, mul, add_comm, mul_comm}

  zero_term :
      (w : R) (i : ℕ) (rest : R) → lib.not_equal_zero w ≡ false → add (mul w (B i)) rest ≡ rest
  zero_term w i rest h =
      ap (λ (c : R). add (mul c (B i)) rest) (x.zero_test w h)
      ∙ ap (λ (c : R). add c rest) (zero-mul r (B i))
      ∙ zero-add r rest

  pub weighted_terms-terms :
      (ws : List R) (i n : ℕ)
      → length ws ≤ n
      → weighted_terms r lib (length ws) ws (table B i n) ≡ ok (terms r bias B i ws)
  unfolding weighted_terms terms table
  weighted_terms-terms [] i n h = refl
  weighted_terms-terms (w ∷ ws) i zero h = ground (arith, h)
  weighted_terms-terms (w ∷ ws) i (suc n) h =
      rw (weighted_terms-terms ws (suc i) n (omega (arith, h)))
        (elim (Bool-cases (lib.not_equal_zero w)) [
          | inl term ↦ rw (term, mul_comm (B i) w)
          | inr none ↦ rw none (ap ok (sym (zero_term w i (terms r bias B (suc i) ws) none)))
        ])

  -- The bias is added unless it is zero.
  add_bias : (b s : R) → (if lib.not_equal_zero b then add s b else s) ≡ add b s
  add_bias b s = elim (Bool-cases (lib.not_equal_zero b)) [
    | inl some ↦ rw some (add_comm s b)
    | inr none ↦ rw none (sym (ap (λ (c : R). add c s) (x.zero_test b none) ∙ zero-add r s))
  ]

  pub weighted_sum-value :
      (c : R) (cs : List R) (n : ℕ)
      → 1 ≤ length cs
      → length cs ≤ n
      → weighted_sum r lib (table B 1 n) (c ∷ cs) (bias c) (length cs)
        ≡ ok (value r bias B (c ∷ cs))
  unfolding weighted_sum value
  weighted_sum-value c cs n pos h =
      let z : (length cs == 0) ≡ false = ground (arith, pos) in
      rw (z, weighted_terms-terms cs 1 n h) (ap ok (add_bias (bias c) (terms r bias B 1 cs)))

  length-prepend : (w : R) (t : List R) → length (prepend r lib w t) ≤ suc (length t)
  unfolding prepend
  length-prepend w [] = ground arith
  length-prepend w (v ∷ vs) = omega arith

  length-trim : (f : List R) → length (trim r lib f) ≤ length f
  unfolding trim
  length-trim [] = omega arith
  length-trim (w ∷ ws) =
      let ih = length-trim ws in let p = length-prepend w (trim r lib ws) in omega (arith, ih, p)

  terms-prepend :
      (w : R) (i : ℕ) (t : List R)
      → terms r bias B i (prepend r lib w t) ≡ add (mul w (B i)) (terms r bias B (suc i) t)
  unfolding prepend terms
  terms-prepend w i [] = elim (Bool-cases (lib.not_equal_zero w)) [
    | inl some ↦ rw some
    | inr none ↦ rw none (sym (zero_term w i r.zero none))
  ]
  terms-prepend w i (v ∷ vs) = refl

  terms-trim : (i : ℕ) (f : List R) → terms r bias B i (trim r lib f) ≡ terms r bias B i f
  unfolding trim terms
  terms-trim i [] = refl
  terms-trim i (w ∷ ws) =
      terms-prepend w i (trim r lib ws) ∙ ap (add (mul w (B i))) (terms-trim (suc i) ws)

  prepend_nil : (w : R) (t : List R) → prepend r lib w t ≡ [] → (t ≡ []) × (w ≡ r.zero)
  unfolding prepend
  prepend_nil w [] h = (refl, let z = x.zero_test w in ground (arith, h, z))
  prepend_nil w (v ∷ vs) h = cc

  trim_nil : (f : List R) → trim r lib f ≡ [] → (i : ℕ) → at r f i ≡ r.zero
  unfolding trim at
  trim_nil [] h i = refl
  trim_nil (w ∷ ws) h zero = (prepend_nil w (trim r lib ws) h).1
  trim_nil (w ∷ ws) h (suc i) = trim_nil ws (prepend_nil w (trim r lib ws) h).0 i

  -- What a batch computes from the trimmed weights `t` of a node with the constant term c
  batched_lem :
      (c : R) (t : List R) (n : ℕ)
      → t ≢ []
      → length t ≤ n
      → (elim (prepend r lib (bias c) t) [
        | [] ↦ err out_of_range
        | w ∷ ws ↦ weighted_terms r lib (length ws) ws (table B 1 n) >>= λ s.
            ok (if lib.not_equal_zero w then add s w else s)
      ])
        ≡ ok (add (bias c) (terms r bias B 1 t))
  unfolding prepend
  batched_lem c [] n some h = absurd (some refl)
  batched_lem c (v ∷ vs) n some h =
      rw (weighted_terms-terms (v ∷ vs) 1 n h)
        (ap ok (add_bias (bias c) (terms r bias B 1 (v ∷ vs))))

  pub batched_sum-value :
      (c : R) (cs : List R) (n : ℕ)
      → 1 ≤ lib.degree (c ∷ cs)
      → length cs ≤ n
      → batched_sum r lib (table B 1 n) (bias c ∷ cs) ≡ ok (value r bias B (c ∷ cs))
  unfolding batched_sum trim value at
  batched_sum-value c cs n high h =
      let some : trim r lib cs ≢ [] = λ e.
        let flat = x.least (c ∷ cs) 0 (λ i (pos : 0 < i).
          let s : i ≡ suc (i - 1) = omega (arith, pos) in
          subst (λ (j : ℕ). at r (c ∷ cs) j ≡ r.zero) (sym s) (trim_nil cs e (i - 1))) in
        omega (arith, high, flat) in
      let le = length-trim cs in
      batched_lem c (trim r lib cs) n some (omega (arith, le, h))
      ∙ ap (λ (s : R). ok (add (bias c) s)) (terms-trim 1 cs)
