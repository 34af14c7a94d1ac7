-- ===== src/Approx/Powers/Tables.antt =====
-- The loops of evalPowersPS fill their vectors with powers of the slot, fused or not.
use fideslib.Prelude.{
  ℕ, zero, suc, ◌+◌, ◌-◌, ◌*◌, ◌/◌, ◌%◌, ◌^◌, ◌≤◌, ◌<◌, ◌≡◌, refl, sym, ap, ◌∙◌, Bool, [], ◌∷◌,
  ◌++◌, ◌==◌, arith, Bool-cases, inl, inr,
}
use native.Mathlib.Nat.{mul-le-mul_left}
use fideslib.Prelude.Bits.{and_bits, pow_le}
use fideslib.Approx.Arithmetic.{Arithmetic, one-mul}
use fideslib.Approx.Vectors.{at}
use fideslib.Approx.Openfhe.{Openfhe}
use fideslib.Approx.WeightedSum.Values.{table}
use fideslib.Approx.Series.Tables.{table-snoc, at-table}
use fideslib.Approx.Powers.{next_power, powers_loop, squarings}

and_bits-zero : (w a : ℕ) → and_bits w a 0 ≡ 0
unfolding and_bits
and_bits-zero zero a = refl
and_bits-zero (suc w) a = let ih = and_bits-zero w (a / 2) in omega (arith, ih)

module _ (r : Arithmetic) (y : r.R) where
  open r use {R, mul, mul_assoc}

  -- y^n
  unfoldable pub power : ℕ → R
  power zero = r.one
  power (suc n) = mul y (power n)

  pub power_one : power 1 ≡ y
  unfolding power
  power_one = r.mul-one y

  pub power-add : (a b : ℕ) → mul (power a) (power b) ≡ power (a + b)
  unfolding power
  power-add zero b = let e : 0 + b ≡ b = omega arith in rw e (one-mul r (power b))
  power-add (suc a) b =
      let e : suc a + b ≡ suc (a + b) = omega arith in
      rw e (mul_assoc y (power a) (power b) ∙ ap (mul y) (power-add a b))

  -- Two entries of the table of the first n powers
  product :
      (n a b : ℕ)
      → a < n
      → b < n
      → mul (at r (table power 1 n) a) (at r (table power 1 n) b) ≡ power (suc a + suc b)
  product n a b ha hb =
      let ea : 1 + a ≡ suc a = omega arith in
      let eb : 1 + b ≡ suc b = omega arith in
      rw (at-table r power n 1 a ha, at-table r power n 1 b hb, ea, eb) (power-add (suc a) (suc b))

  module _ (lib : Openfhe r) where
    -- power_of2 is even, and i is the sum of both counters.
    next_power_lem :
        (fused : Bool) (i p rem : ℕ)
        → 2 ≤ i
        → p + rem ≡ i
        → 2 ≤ p
        → p % 2 ≡ 0
        → next_power r lib fused i p rem (table power 1 (i - 1)) ≡ power i
    unfolding next_power
    next_power_lem fused i p rem h sum big even = elim (Bool-cases (rem == 0)) [
      | inl none ↦
          let z : rem ≡ 0 = ground (arith, none) in
          let e : suc (p / 2 - 1) + suc (p / 2 - 1) ≡ i = omega (arith, z, sum, big, even) in
          rw none (
            product (i - 1) (p / 2 - 1) (p / 2 - 1) (omega (arith, z, sum, big))
              (omega (arith, z, sum, big))
            ∙ ap power e)
      | inr more ↦
          let pos : 1 ≤ rem = ground (arith, more) in
          elim (Bool-cases fused) [
            | inl yes_fused ↦
                let e : suc (i / 2 - 1) + suc (i / 2 - 1 + i % 2) ≡ i = omega (arith, h) in
                rw (more, yes_fused, and_bits-zero 32 i)
                  (product (i - 1) (i / 2 - 1) (i / 2 - 1 + i % 2) (omega (arith, h))
                      (omega (arith, h, sum, pos, big))
                    ∙ ap power e)
            | inr plain ↦
                let e : suc (p - 1) + suc (rem - 1) ≡ i = omega (arith, sum, pos, big) in
                rw (more, plain)
                  (product (i - 1) (p - 1) (rem - 1) (omega (arith, sum, pos))
                      (omega (arith, sum, big))
                    ∙ ap power e)
          ]
    ]

    powers_loop_lem :
        (fused : Bool) (n i p rem : ℕ)
        → 2 ≤ i
        → p + rem ≡ i
        → 2 ≤ p
        → p % 2 ≡ 0
        → rem < p
        → powers_loop r lib fused n i p rem (table power 1 (i - 1)) ≡ table power 1 (i - 1 + n)
    unfolding powers_loop
    powers_loop_lem fused zero i p rem h sum big even less =
        let e : i - 1 + 0 ≡ i - 1 = omega arith in rw e
    powers_loop_lem fused (suc n) i p rem h sum big even less =
        let e : i - 1 + suc n ≡ suc i - 1 + n = omega (arith, h) in
        let one_more : 1 + (i - 1) ≡ i = omega (arith, h) in
        let s : suc (i - 1) ≡ suc i - 1 = omega (arith, h) in
        let grown : table power 1 (i - 1) ++ power i ∷ [] ≡ table power 1 (suc i - 1) =
          rw (one_more, s) at (table-snoc power 1 (i - 1)) in
        let next = next_power_lem fused i p rem h sum big even in
        elim (Bool-cases (suc rem == p)) [
          | inl wraps ↦
              let w : suc rem ≡ p = ground (arith, wraps) in
              rw (wraps, next, grown, e)
                (powers_loop_lem fused n (suc i) (p * 2) 0 (omega arith) (omega (arith, w, sum))
                  (omega (arith, big)) (omega arith) (omega (arith, big)))
          | inr goes_on ↦
              rw (goes_on, next, grown, e)
                (powers_loop_lem fused n (suc i) p (suc rem) (omega arith) (omega (arith, sum)) big
                  even (ground (arith, goes_on, less)))
        ]

    -- y, y^2, ..., y^{n+1}
    pub powers_loop-table :
        (fused : Bool) (n : ℕ) → powers_loop r lib fused n 2 2 0 (y ∷ []) ≡ table power 1 (suc n)
    unfolding table
    powers_loop-table fused n =
        let e : 2 - 1 + n ≡ suc n = omega arith in
        ap (λ (a : R). powers_loop r lib fused n 2 2 0 (a ∷ [])) (sym power_one)
        ∙ rw e at (
            powers_loop_lem fused n 2 2 0 (omega arith) (omega arith) (omega arith) (omega arith)
              (omega arith))

    module _ (k : ℕ) where
      exponents : (j : ℕ) → (k ≤ k * 2 ^ j) × (k * 2 ^ suc j ≡ 2 * (k * 2 ^ j))
      exponents j =
          let one_le : 1 ≤ 2 ^ j = pow_le 0 j (omega arith) in
          let e : 2 ^ suc j ≡ 2 * 2 ^ j = omega arith in
          (omega (arith, mul-le-mul_left k one_le), omega (arith, ap (λ (x : ℕ). k * x) e))

      -- y^{k 2^i} and y^{k(2^{j+1}-1)}
      abbrev pub D : ℕ → R
      D i = power (k * 2 ^ i)

      abbrev pub E : ℕ → R
      E j = power (k * 2 ^ suc j - k)

      squarings_lem : (n j : ℕ) → squarings r lib n (D j) (E j) ≡ (table D (suc j) n, E (j + n))
      unfolding squarings table
      squarings_lem zero j = let e : j + 0 ≡ j = omega arith in rw e
      squarings_lem (suc n) j =
          let e : suc j + n ≡ j + suc n = omega arith in
          let p = exponents j in
          let p' = exponents (suc j) in
          let a : k * 2 ^ j + k * 2 ^ j ≡ k * 2 ^ suc j = omega (arith, p) in
          let b : k * 2 ^ suc j - k + k * 2 ^ suc j ≡ k * 2 ^ suc (suc j) - k = omega (arith, p') in
          let square = power-add (k * 2 ^ j) (k * 2 ^ j) ∙ ap power a in
          let product_of = power-add (k * 2 ^ suc j - k) (k * 2 ^ suc j) ∙ ap power b in
          let ih = rw e at (squarings_lem n (suc j)) in rw (square, product_of, ih)

      -- y^{2k}, y^{4k}, ..., and y^{k(2^{n+1}-1)}
      pub squarings-table : (n : ℕ) → squarings r lib n (power k) (power k) ≡ (table D 1 n, E n)
      squarings-table n =
          let d : k * 2 ^ 0 ≡ k = omega arith in
          let e : k * 2 ^ 1 - k ≡ k = omega arith in
          let z : 0 + n ≡ n = omega arith in rw (d, e, z) at (squarings_lem n 0)
