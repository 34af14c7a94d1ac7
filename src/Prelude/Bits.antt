-- ===== src/Prelude/Bits.antt =====
-- Bits of machine words, digit by digit: `&` and std::bit_width, and the powers of two.
use fideslib.Prelude.{
  ℕ, zero, suc, ◌+◌, ◌-◌, ◌*◌, ◌/◌, ◌%◌, ◌^◌, ◌≤◌, ◌<◌, ◌≡◌, ◌∙◌, refl, ap, ◌⊎◌, inl, inr, true,
  false, arith, ◌==◌,
}
use native.Mathlib.Nat.{pow-zero, pow-suc, mul-le-mul_left}
use fideslib.Prelude.Mod.{pow_add}

-- a & b on words of w bits
unfoldable pub and_bits : ℕ → ℕ → ℕ → ℕ
and_bits zero a b = 0
and_bits (suc w) a b = and_bits w (a / 2) (b / 2) * 2 + (a % 2) * (b % 2)

-- std::bit_width of a word of w bits
unfoldable pub bit_width : ℕ → ℕ → ℕ
bit_width zero n = 0
bit_width (suc w) n = elim (n == 0) [ true ↦ 0 | false ↦ suc (bit_width w (n / 2)) ]

pub pow_pos : (k : ℕ) → 0 < 2 ^ k
pow_pos zero = omega (arith, pow-zero 2)
pow_pos (suc k) = omega (arith, pow-suc 2 k, pow_pos k)

pub lt_pow : (k : ℕ) → k < 2 ^ k
lt_pow zero = omega (arith, pow-zero 2)
lt_pow (suc k) = omega (arith, pow-suc 2 k, lt_pow k)

width_step : (w n : ℕ) → 0 < n → bit_width (suc w) n ≡ suc (bit_width w (n / 2))
unfolding bit_width
width_step w n h = ground arith

width_zero : (w : ℕ) → bit_width w 0 ≡ 0
unfolding bit_width
width_zero zero = refl
width_zero (suc w) = refl

pub bit_width-pow : (w k : ℕ) → k < w → bit_width w (2 ^ k) ≡ suc k
bit_width-pow zero k h = absurd (omega arith)
bit_width-pow (suc w) zero h = width_step w 1 (omega arith) ∙ ap suc (width_zero w)
bit_width-pow (suc w) (suc k) h =
    let half : 2 ^ suc k / 2 ≡ 2 ^ k = omega (arith, pow-suc 2 k) in
    width_step w (2 ^ suc k) (pow_pos (suc k))
    ∙ ap suc (ap (bit_width w) half ∙ bit_width-pow w k (omega arith))

and_bits-zero : (w a : ℕ) → and_bits w a 0 ≡ 0
unfolding and_bits
and_bits-zero zero a = refl
and_bits-zero (suc w) a = grind (arith, and_bits-zero w (a / 2))

pub and_pred-pow : (w k : ℕ) → and_bits w (2 ^ k) (2 ^ k - 1) ≡ 0
unfolding and_bits
and_pred-pow zero k = refl
and_pred-pow (suc w) zero = and_bits-zero (suc w) 1
and_pred-pow (suc w) (suc k) =
    let half : 2 ^ suc k / 2 ≡ 2 ^ k = omega (arith, pow-suc 2 k) in
    let less : (2 ^ suc k - 1) / 2 ≡ 2 ^ k - 1 = omega (arith, pow-suc 2 k, pow_pos k) in
    let even : 2 ^ suc k % 2 ≡ 0 = omega (arith, pow-suc 2 k) in
    rw (half, less, even, and_pred-pow w k) (omega arith)

parity : (a : ℕ) → (a % 2 ≡ 0) ⊎ (a % 2 ≡ 1)
parity a = ground arith

and_self : (w a : ℕ) → a < 2 ^ w → and_bits w a a ≡ 0 → a ≡ 0
unfolding and_bits
and_self zero a h e = omega (arith, pow-zero 2)
and_self (suc w) a h e = elim (parity a) [
  | inl d ↦
      let rest : and_bits w (a / 2) (a / 2) ≡ 0 = omega arith in
      omega (arith, and_self w (a / 2) (omega (arith, pow-suc 2 w)) rest)
  | inr d ↦ let odd : and_bits w (a / 2) (a / 2) * 2 + 1 * 1 ≡ 0 = rw d at e in absurd (omega arith)
]

-- b & (b - 1) vanishes at powers of two only.
pub and_pred-zero :
    (w b : ℕ) → 0 < b → b < 2 ^ w → and_bits w b (b - 1) ≡ 0 → (k : ℕ) × (b ≡ 2 ^ k) × (k < w)
unfolding and_bits
and_pred-zero zero b p h e = absurd (omega (arith, pow-zero 2))
and_pred-zero (suc w) b p h e = elim (parity b) [
  | inl d ↦
      let less : (b - 1) / 2 ≡ b / 2 - 1 = omega arith in
      let rest : and_bits w (b / 2) ((b - 1) / 2) ≡ 0 = omega arith in
      let (k, q, l) =
        and_pred-zero w (b / 2) (omega arith) (omega (arith, pow-suc 2 w)) (rw less at rest) in
      (suc k, omega (arith, pow-suc 2 k), omega arith)
  | inr d ↦
      let same : (b - 1) / 2 ≡ b / 2 = omega arith in
      let rest : and_bits w (b / 2) ((b - 1) / 2) ≡ 0 = omega arith in
      let none_left = and_self w (b / 2) (omega (arith, pow-suc 2 w)) (rw same at rest) in
      (0, omega arith, omega arith)
]

pub pow_le : (a b : ℕ) → a ≤ b → 2 ^ a ≤ 2 ^ b
pow_le a b h =
    let q : b ≡ a + (b - a) = omega arith in
    let s : 2 ^ b ≡ 2 ^ a * 2 ^ (b - a) = ap (λ (x : ℕ). 2 ^ x) q ∙ pow_add 2 a (b - a) in
    let one : 2 ^ a * 1 ≤ 2 ^ a * 2 ^ (b - a) = mul-le-mul_left (2 ^ a) (pow_pos (b - a)) in
    omega arith
