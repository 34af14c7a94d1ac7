-- ===== src/Approx/Powers/Sparse/Values.antt =====
-- Up to degree 4 the computed powers are the ones that the sum of the terms reads.
use fideslib.Prelude.{
  ℕ, suc, ◌-◌, ◌≤◌, ◌<◌, ◌≡◌, refl, sym, ap, ◌∙◌, true, Option, none, some, List, [], ◌∷◌,
  if◌then◌else◌, length, ◌==◌, arith, Bool-cases, inl, inr,
}
use fideslib.Prelude.Bits.{and_bits, bit_width}
use fideslib.Ckks.Result.{ok, ◌>>=◌, guard}
use fideslib.Approx.Arithmetic.{Arithmetic, add_left_comm, zero-mul}
use fideslib.Approx.Vectors.{at, terms, value}
use fideslib.Approx.Openfhe.{Openfhe, IsExact}
use fideslib.Approx.Powers.Tables.{power, power_one, power-add}
use fideslib.Approx.Powers.Sparse.{
  is_power_of_2, below_top, decomposition, marked, needed, entry, filled, product, sparse_loop,
  eval_powers_linear, add_sparse_term, add_sparse, eval_poly_linear,
}

module _ (r : Arithmetic) (lib : Openfhe r) (x : IsExact r lib) (y : r.R) where
  open r use {R, one, add, mul, add_assoc, add_comm, add-zero, mul_comm}

  abbrev P : ℕ → Option R
  P i = some (power r y i)

  powers_1 : (c d : R) → eval_powers_linear r lib (power r y 1) (c ∷ d ∷ []) ≡ ok (P 1 ∷ [])
  unfolding eval_powers_linear guard needed is_power_of_2 and_bits decomposition sparse_loop
  powers_1 c d = refl

  powers_2 :
      (c d e : R) → eval_powers_linear r lib (power r y 1) (c ∷ d ∷ e ∷ []) ≡ ok (P 1 ∷ P 2 ∷ [])
  unfolding eval_powers_linear guard needed is_power_of_2 and_bits decomposition sparse_loop product
      entry filled
  powers_2 c d e = ap (λ (p : R). ok (P 1 ∷ some p ∷ [])) (power-add r y 1 1)

  powers_3 :
      (c d e f : R)
      → lib.not_equal_zero f ≡ true
      → eval_powers_linear r lib (power r y 1) (c ∷ d ∷ e ∷ f ∷ []) ≡ ok (P 1 ∷ P 2 ∷ P 3 ∷ [])
  unfolding eval_powers_linear guard needed is_power_of_2 and_bits decomposition sparse_loop product
      entry filled at below_top bit_width marked
  powers_3 c d e f h = rw (h, power-add r y 1 1, power-add r y 2 1) refl

  -- The power 3 is left empty when its coefficient is zero.
  cube : R → Option R
  cube f = if lib.not_equal_zero f then P 3 else none

  powers_4 :
      (c d e f g : R)
      → eval_powers_linear r lib (power r y 1) (c ∷ d ∷ e ∷ f ∷ g ∷ [])
        ≡ ok (P 1 ∷ P 2 ∷ cube f ∷ P 4 ∷ [])
  unfolding eval_powers_linear guard needed is_power_of_2 and_bits decomposition sparse_loop product
      entry filled at below_top bit_width marked cube
  powers_4 c d e f g = elim (Bool-cases (lib.not_equal_zero f)) [
    | inl some_f ↦ rw (some_f, power-add r y 1 1, power-add r y 2 1, power-add r y 2 2) refl
    | inr none_f ↦ rw (none_f, power-add r y 1 1, power-add r y 2 2) refl
  ]

  -- A term, whose power is there unless its coefficient is zero
  add_sparse_term_lem :
      (i : ℕ) (ts : List (Option R)) (f : List R) (acc t : R)
      → (lib.not_equal_zero (at r f i) ≡ true → entry r lib ts (i - 1) ≡ ok t)
      → add_sparse_term r lib i ts f acc ≡ ok (add acc (mul (at r f i) t))
  unfolding add_sparse_term
  add_sparse_term_lem i ts f acc t h = elim (Bool-cases (lib.not_equal_zero (at r f i))) [
    | inl some_c ↦ rw (some_c, h some_c, mul_comm t (at r f i))
    | inr none_c ↦ rw none_c (
        ap ok (
          sym (
            ap (λ (c : R). add acc (mul c t)) (x.zero_test (at r f i) none_c)
            ∙ ap (add acc) (zero-mul r t)
            ∙ add-zero acc)))
  ]

  -- The order of the terms
  arrange_2 :
      (p1 p2 c d e : R)
      → add (add (mul p2 e) (mul d p1)) c ≡ add c (add (mul d p1) (add (mul e p2) r.zero))
  arrange_2 p1 p2 c d e =
      rw (mul_comm p2 e, add-zero (mul e p2)) (simp (add_assoc, add_comm, add_left_comm r))

  arrange_3 :
      (p1 p2 p3 c d e f : R)
      → add (add (add (mul p3 f) (mul d p1)) (mul e p2)) c
        ≡ add c (add (mul d p1) (add (mul e p2) (add (mul f p3) r.zero)))
  arrange_3 p1 p2 p3 c d e f =
      rw (mul_comm p3 f, add-zero (mul f p3)) (simp (add_assoc, add_comm, add_left_comm r))

  arrange_4 :
      (p1 p2 p3 p4 c d e f g : R)
      → add (add (add (add (mul p4 g) (mul d p1)) (mul e p2)) (mul f p3)) c
        ≡ add c (add (mul d p1) (add (mul e p2) (add (mul f p3) (add (mul g p4) r.zero))))
  arrange_4 p1 p2 p3 p4 c d e f g =
      rw (mul_comm p4 g, add-zero (mul g p4)) (simp (add_assoc, add_comm, add_left_comm r))

  abbrev V : List R → R
  V f = value r (λ c. c) (power r y) f

  sum_1 :
      (c d : R)
      → lib.not_equal_zero d ≡ true
      → eval_poly_linear r lib (P 1 ∷ []) (c ∷ d ∷ []) ≡ ok (V (c ∷ d ∷ []))
  unfolding eval_poly_linear guard add_sparse entry filled at value terms
  sum_1 c d h = rw h (
      ap ok (
        ap (λ (t : R). add t c) (mul_comm (power r y 1) d ∙ sym (add-zero (mul d (power r y 1))))
        ∙ add_comm _ c))

  sum_2 :
      (c d e : R)
      → lib.not_equal_zero e ≡ true
      → eval_poly_linear r lib (P 1 ∷ P 2 ∷ []) (c ∷ d ∷ e ∷ []) ≡ ok (V (c ∷ d ∷ e ∷ []))
  unfolding eval_poly_linear guard add_sparse entry filled at value terms
  sum_2 c d e h =
      let ts = P 1 ∷ P 2 ∷ [] in
      let f = c ∷ d ∷ e ∷ [] in
      let first = add_sparse_term_lem 1 ts f (mul (power r y 2) e) (power r y 1) (λ q. refl) in
      rw (h, first) (ap ok (arrange_2 (power r y 1) (power r y 2) c d e))

  sum_3 :
      (c d e f : R)
      → lib.not_equal_zero f ≡ true
      → eval_poly_linear r lib (P 1 ∷ P 2 ∷ P 3 ∷ []) (c ∷ d ∷ e ∷ f ∷ [])
        ≡ ok (V (c ∷ d ∷ e ∷ f ∷ []))
  unfolding eval_poly_linear guard add_sparse entry filled at value terms
  sum_3 c d e f h =
      let ts = P 1 ∷ P 2 ∷ P 3 ∷ [] in
      let g = c ∷ d ∷ e ∷ f ∷ [] in
      let t3 = mul (power r y 3) f in
      let first = add_sparse_term_lem 1 ts g t3 (power r y 1) (λ q. refl) in
      let second =
        add_sparse_term_lem 2 ts g (add t3 (mul d (power r y 1))) (power r y 2) (λ q. refl) in
      rw (h, first, second) (ap ok (arrange_3 (power r y 1) (power r y 2) (power r y 3) c d e f))

  sum_4 :
      (c d e f g : R)
      → lib.not_equal_zero g ≡ true
      → eval_poly_linear r lib (P 1 ∷ P 2 ∷ cube f ∷ P 4 ∷ []) (c ∷ d ∷ e ∷ f ∷ g ∷ [])
        ≡ ok (V (c ∷ d ∷ e ∷ f ∷ g ∷ []))
  unfolding eval_poly_linear guard add_sparse entry filled at value terms cube
  sum_4 c d e f g h =
      let ts = P 1 ∷ P 2 ∷ cube f ∷ P 4 ∷ [] in
      let p = c ∷ d ∷ e ∷ f ∷ g ∷ [] in
      let t4 = mul (power r y 4) g in
      let first = add_sparse_term_lem 1 ts p t4 (power r y 1) (λ q. refl) in
      let s1 = add t4 (mul d (power r y 1)) in
      let second = add_sparse_term_lem 2 ts p s1 (power r y 2) (λ q. refl) in
      let s2 = add s1 (mul e (power r y 2)) in
      let third = add_sparse_term_lem 3 ts p s2 (power r y 3) (λ q. rw q) in
      rw (h, first, second, third)
        (ap ok (arrange_4 (power r y 1) (power r y 2) (power r y 3) (power r y 4) c d e f g))

  linear :
      (f : List R)
      → lib.not_equal_zero (at r f (length f - 1)) ≡ true
      → 2 ≤ length f
      → length f ≤ 5
      → (eval_powers_linear r lib (power r y 1) f >>= λ ts. eval_poly_linear r lib ts f) ≡ ok (V f)
  unfolding at
  linear [] h low high = absurd (omega (arith, low))
  linear (c ∷ []) h low high = absurd (omega (arith, low))
  linear (c ∷ d ∷ []) h low high = rw (powers_1 c d) (sum_1 c d h)
  linear (c ∷ d ∷ e ∷ []) h low high = rw (powers_2 c d e) (sum_2 c d e h)
  linear (c ∷ d ∷ e ∷ f ∷ []) h low high = rw (powers_3 c d e f h) (sum_3 c d e f h)
  linear (c ∷ d ∷ e ∷ f ∷ g ∷ []) h low high = rw (powers_4 c d e f g) (sum_4 c d e f g h)
  linear (c ∷ d ∷ e ∷ f ∷ g ∷ i ∷ is) h low high = absurd (omega (arith, high))

  last_some :
      (f : List R)
      → length f ≡ suc (lib.degree f)
      → 1 ≤ lib.degree f
      → lib.not_equal_zero (at r f (length f - 1)) ≡ true
  last_some f len pos = elim (Bool-cases (lib.not_equal_zero (at r f (length f - 1)))) [
    | inl some_c ↦ some_c
    | inr none_c ↦
        let z = x.zero_test (at r f (length f - 1)) none_c in
        let e : length f - 1 ≡ lib.degree f = omega (arith, len) in
        let z' : at r f (lib.degree f) ≡ r.zero = rw e at z in
        let le = x.least f (lib.degree f - 1) (λ i h. elim (Bool-cases (i == lib.degree f)) [
          | inl here ↦ let q : i ≡ lib.degree f = ground (arith, here) in rw q z'
          | inr other ↦ x.above f i (ground (arith, h, other))
        ]) in
        absurd (omega (arith, le, pos))
  ]

  -- Both functions, for a polynomial of degree 1 to 4 whose last coefficient is not zero
  pub eval_poly_linear-value :
      (f : List R)
      → length f ≡ suc (lib.degree f)
      → 1 ≤ lib.degree f
      → lib.degree f < 5
      → (eval_powers_linear r lib y f >>= λ ts. eval_poly_linear r lib ts f) ≡ ok (V f)
  eval_poly_linear-value f len pos low =
      ap (λ (a : R). eval_powers_linear r lib a f >>= λ ts. eval_poly_linear r lib ts f)
        (sym (power_one r y))
      ∙ linear f (last_some f len pos) (omega (arith, len, pos)) (omega (arith, len, low))
