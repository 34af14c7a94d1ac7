-- ===== src/Approx/Series/Tables.antt =====
-- The loops of evalChebyshevSeries fill their vectors with Chebyshev polynomials.
use fideslib.Prelude.{
  ℕ, zero, suc, ◌+◌, ◌-◌, ◌*◌, ◌/◌, ◌%◌, ◌^◌, ◌≤◌, ◌<◌, ◌≡◌, sym, ap, ◌∙◌, [], ◌∷◌, ◌++◌, ◌==◌,
  arith, Bool-cases, inl, inr,
}
use native.Mathlib.Nat.{mul-le-mul_left}
use fideslib.Prelude.Bits.{pow_le}
use fideslib.Ckks.Result.{ok}
use fideslib.Approx.Arithmetic.{Arithmetic, sub, add-sub_cancel}
use fideslib.Approx.Vectors.{at}
use fideslib.Approx.Openfhe.{Openfhe}
use fideslib.Approx.WeightedSum.Values.{table}
use fideslib.Approx.Chebyshev.{double_at}
use fideslib.Approx.Series.{double_product, next_polynomial, polynomials, doublings}
use fideslib.Approx.Series.Polynomials.{chebyshev, chebyshev_zero, chebyshev_one, chebyshev-product}

pub table-snoc {ℓ} :
    {A : Type ℓ} (B : ℕ → A) (i n : ℕ) → table B i n ++ B (i + n) ∷ [] ≡ table B i (suc n)
unfolding table
table-snoc B i zero = let e : i + 0 ≡ i = omega arith in rw e
table-snoc B i (suc n) =
    let e : i + suc n ≡ suc i + n = omega arith in
    ap (λ xs. B i ∷ xs) (rw e (table-snoc B (suc i) n))

pub double_at-table {ℓ} :
    {A : Type ℓ} (B : ℕ → A) (m j i : ℕ)
    → 1 ≤ i
    → i ≤ m
    → double_at (table B j m) i ≡ ok (B (j + i - 1))
unfolding double_at table
double_at-table B m j zero p h = absurd (omega (arith, p))
double_at-table B zero j (suc i) p h = absurd (omega (arith, h))
double_at-table B (suc m) j (suc zero) p h = let e : j + 1 - 1 ≡ j = omega arith in rw e
double_at-table B (suc m) j (suc (suc i)) p h =
    let e : j + suc (suc i) - 1 ≡ suc j + suc i - 1 = omega arith in
    rw e (double_at-table B m (suc j) (suc i) (omega arith) (omega (arith, h)))

pub at-table : (r : Arithmetic) (B : ℕ → r.R) (n j i : ℕ) → i < n → at r (table B j n) i ≡ B (j + i)
unfolding at table
at-table r B zero j i h = absurd (omega (arith, h))
at-table r B (suc n) j zero h = let e : j + 0 ≡ j = omega arith in rw e
at-table r B (suc n) j (suc i) h =
    let e : j + suc i ≡ suc j + i = omega arith in
    rw e (at-table r B n (suc j) i (omega (arith, h)))

module _ (r : Arithmetic) (lib : Openfhe r) (y : r.R) where
  open r use {R, one, add, neg, mul}

  abbrev pub C : ℕ → R
  C = chebyshev r y

  double : (m n : ℕ) → double_product r lib (C m) (C (n + m)) ≡ add (C (n + 2 * m)) (C n)
  unfolding double_product
  double m n = chebyshev-product r y m n

  -- The entry that a round adds
  next_lem : (i : ℕ) → 2 ≤ i → next_polynomial r lib i (table C 1 (i - 1)) ≡ C i
  unfolding next_polynomial
  next_lem i h =
      let low = at-table r C (i - 1) 1 (i / 2 - 1) (omega (arith, h)) in
      let l : 1 + (i / 2 - 1) ≡ i / 2 = omega (arith, h) in
      elim (Bool-cases (i % 2 == 1)) [
        | inl odd ↦
            let rest : i % 2 ≡ 1 = ground (arith, odd) in
            let high = at-table r C (i - 1) 1 (i / 2) (omega (arith, h, rest)) in
            let first = at-table r C (i - 1) 1 0 (omega (arith, h)) in
            let e : 1 + 2 * (i / 2) ≡ i = omega (arith, rest) in
            let d = rw e at (double (i / 2) 1) in
            rw (odd, low, l, high, first, d) (add-sub_cancel r (C i) (C 1))
        | inr even ↦
            let rest : i % 2 ≡ 0 = ground (arith, even) in
            let e : 0 + 2 * (i / 2) ≡ i = omega (arith, rest) in
            let z : 0 + i / 2 ≡ i / 2 = omega arith in
            let d = rw (e, z) at (double (i / 2) 0) in
            rw (even, low, l, d, chebyshev_zero r y) (add-sub_cancel r (C i) one)
      ]

  polynomials_lem :
      (n i : ℕ) → 2 ≤ i → polynomials r lib n i (table C 1 (i - 1)) ≡ table C 1 (i - 1 + n)
  unfolding polynomials
  polynomials_lem zero i h = let e : i - 1 + 0 ≡ i - 1 = omega arith in rw e
  polynomials_lem (suc n) i h =
      let e : i - 1 + suc n ≡ suc i - 1 + n = omega (arith, h) in
      let one_more : 1 + (i - 1) ≡ i = omega (arith, h) in
      let s : suc (i - 1) ≡ suc i - 1 = omega (arith, h) in
      let grown : table C 1 (i - 1) ++ C i ∷ [] ≡ table C 1 (suc i - 1) =
        rw (one_more, s) at (table-snoc C 1 (i - 1)) in
      rw (next_lem i h, grown, e) (polynomials_lem n (suc i) (omega (arith, h)))

  -- T_1, ..., T_{n+1}
  pub polynomials-table : (n : ℕ) → polynomials r lib n 2 (y ∷ []) ≡ table C 1 (suc n)
  unfolding table
  polynomials-table n =
      let e : 2 - 1 + n ≡ suc n = omega arith in
      ap (λ (a : R). polynomials r lib n 2 (a ∷ [])) (sym (chebyshev_one r y))
      ∙ rw e at (polynomials_lem n 2 (omega arith))

  module _ (k : ℕ) (kp : 1 ≤ k) where
    power : (j : ℕ) → (k ≤ k * 2 ^ j) × (k * 2 ^ suc j ≡ 2 * (k * 2 ^ j))
    power j =
        let one_le : 1 ≤ 2 ^ j = pow_le 0 j (omega arith) in
        let e : 2 ^ suc j ≡ 2 * 2 ^ j = omega arith in
        (omega (arith, mul-le-mul_left k one_le), omega (arith, ap (λ (x : ℕ). k * x) e))

    abbrev pub D : ℕ → R
    D i = C (k * 2 ^ i)

    -- T_{k(2^{j+1}-1)}
    abbrev pub E : ℕ → R
    E j = C (k * 2 ^ suc j - k)

    square_lem : (j : ℕ) → add (double_product r lib (D j) (D j)) (neg one) ≡ D (suc j)
    square_lem j =
        let e : 0 + 2 * (k * 2 ^ j) ≡ k * 2 ^ suc j = let p = (power j).1 in omega (arith, p) in
        let z : 0 + k * 2 ^ j ≡ k * 2 ^ j = omega arith in
        let d = rw (e, z) at (double (k * 2 ^ j) 0) in
        rw (d, chebyshev_zero r y) (add-sub_cancel r (D (suc j)) one)

    product_lem : (j : ℕ) → sub r (double_product r lib (E j) (D (suc j))) (C k) ≡ E (suc j)
    product_lem j =
        let p = power (suc j) in
        let q = power j in
        let a : k + (k * 2 ^ suc j - k) ≡ k * 2 ^ suc j = omega (arith, p) in
        let b : k + 2 * (k * 2 ^ suc j - k) ≡ k * 2 ^ suc (suc j) - k = omega (arith, p) in
        let d = rw (a, b) at (double (k * 2 ^ suc j - k) k) in
        rw d (add-sub_cancel r (E (suc j)) (C k))

    doublings_lem : (n j : ℕ) → doublings r lib n (C k) (D j) (E j) ≡ (table D (suc j) n, E (j + n))
    unfolding doublings table
    doublings_lem zero j = let e : j + 0 ≡ j = omega arith in rw e
    doublings_lem (suc n) j =
        let e : suc j + n ≡ j + suc n = omega arith in
        let ih = rw e at (doublings_lem n (suc j)) in rw (square_lem j, product_lem j, ih)

    -- T_{2k}, T_{4k}, ..., and T_{k(2^{n+1}-1)}
    pub doublings-table : (n : ℕ) → doublings r lib n (C k) (C k) (C k) ≡ (table D 1 n, E n)
    doublings-table n =
        let d : k * 2 ^ 0 ≡ k = omega arith in
        let e : k * 2 ^ 1 - k ≡ k = omega arith in
        let z : 0 + n ≡ n = omega arith in rw (d, e, z) at (doublings_lem n 0)
