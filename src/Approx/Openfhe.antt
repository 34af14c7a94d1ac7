-- ===== src/Approx/Openfhe.antt =====
-- What the evaluators call of OpenFHE (namespace lbcrypto), and what they rely on: Degree, the long
-- divisions and ComputeDegreesPS. Comparisons with 0 and 1 are exact here.
use fideslib.Prelude.{ℕ, suc, ◌-◌, ◌*◌, ◌^◌, ◌≤◌, ◌<◌, ◌≡◌, Bool, false, List, [], length, ◌==◌}
use fideslib.Ckks.Result.{Result, ok, err, openfhe_error, value_or}
use fideslib.Approx.Arithmetic.{Arithmetic}
use fideslib.Approx.Vectors.{at, value}

pub record Openfhe (r : Arithmetic) : Type 0 where
  pub degree : List r.R → ℕ
  pub not_equal_zero : r.R → Bool
  pub not_equal_one : r.R → Bool
  pub not_equal_neg_one : r.R → Bool
  pub long_division_chebyshev : List r.R → List r.R → Result (List r.R × List r.R)
  pub long_division_poly : List r.R → List r.R → Result (List r.R × List r.R)
  -- k and m
  pub compute_degrees_ps : ℕ → ℕ × ℕ

-- Degree is the place of the last coefficient that is not zero, and the comparisons are right.
pub record IsExact (r : Arithmetic) (lib : Openfhe r) : Type 0 where
  pub above : (f : List r.R) (i : ℕ) → lib.degree f < i → at r f i ≡ r.zero
  pub least : (f : List r.R) (n : ℕ) → ((i : ℕ) → n < i → at r f i ≡ r.zero) → lib.degree f ≤ n
  pub zero_test : (c : r.R) → lib.not_equal_zero c ≡ false → c ≡ r.zero
  pub one_test : (c : r.R) → lib.not_equal_one c ≡ false → c ≡ r.one

-- The dominant coefficient is not zero: otherwise the divisions throw.
abbrev pub Dominant : (r : Arithmetic) → Openfhe r → List r.R → Type 0
Dominant r lib f = length f ≡ suc (lib.degree f)

-- The quotient and the remainder of a division that returns
unfoldable pub divided :
    {A : Type 0} → (List A → List A → Result (List A × List A)) → List A → List A → List A × List A
unfolding value_or
divided divide f g = value_or ([], []) (divide f g)

-- A division of vectors whose dominant coefficients are not zero, by a divisor that is not constant:
-- it returns, its identity, and the degrees of its parts. A dividend
-- whose dominant coefficient is zero makes it throw.
pub record IsDivision (r : Arithmetic) (lib : Openfhe r) (bias : r.R → r.R) (B : ℕ → r.R)
    (divide : List r.R → List r.R → Result (List r.R × List r.R)) : Type 0 where
  pub returns :
      (f g : List r.R)
      → 1 ≤ lib.degree g
      → Dominant r lib f
      → Dominant r lib g
      → divide f g ≡ ok (divided divide f g)
  pub throws :
      (f g : List r.R) → (length f == suc (lib.degree f)) ≡ false → divide f g ≡ err openfhe_error
  pub identity :
      (f g : List r.R)
      → 1 ≤ lib.degree g
      → Dominant r lib f
      → Dominant r lib g
      → value r bias B f
        ≡ r.add
            (r.mul (value r bias B (divided divide f g).0) (value r bias B g))
            (value r bias B (divided divide f g).1)
  pub degree_quotient :
      (f g : List r.R)
      → 1 ≤ lib.degree g
      → Dominant r lib f
      → Dominant r lib g
      → lib.degree (divided divide f g).0 ≡ lib.degree f - lib.degree g
  pub length_quotient :
      (f g : List r.R)
      → 1 ≤ lib.degree g
      → Dominant r lib f
      → Dominant r lib g
      → length (divided divide f g).0 ≡ suc (lib.degree f - lib.degree g)
  pub degree_remainder :
      (f g : List r.R)
      → 1 ≤ lib.degree g
      → Dominant r lib f
      → Dominant r lib g
      → lib.degree (divided divide f g).1 < lib.degree g

-- The quotient of polynomials whose leading coefficients are one is such a polynomial.
pub record IsMonic (r : Arithmetic) (lib : Openfhe r)
    (divide : List r.R → List r.R → Result (List r.R × List r.R)) : Type 0 where
  pub leading :
      (f g : List r.R)
      → 1 ≤ lib.degree g
      → lib.degree g ≤ lib.degree f
      → Dominant r lib f
      → Dominant r lib g
      → at r f (lib.degree f) ≡ r.one
      → at r g (lib.degree g) ≡ r.one
      → at r (divided divide f g).0 (lib.degree f - lib.degree g) ≡ r.one

-- ComputeDegreesPS: the padded series of degree k * (2 ^ m - 1) has room for the given degree.
pub record IsFactored (r : Arithmetic) (lib : Openfhe r) : Type 0 where
  pub k_pos : (n : ℕ) → 5 ≤ n → 1 ≤ (lib.compute_degrees_ps n).0
  pub m_big : (n : ℕ) → 5 ≤ n → 2 ≤ (lib.compute_degrees_ps n).1
  pub room :
      (n : ℕ)
      → 5 ≤ n
      → n
        < (lib.compute_degrees_ps n).0 * 2 ^ (lib.compute_degrees_ps n).1
          - (lib.compute_degrees_ps n).0
