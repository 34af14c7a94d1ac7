-- ===== src/Modular/Shoup.antt =====
-- src/ModMult.cuh: Shoup_mult_64, Shoup_mult_32, Shoup_reduce_128; src/ConstantsGPU.cu:
-- shoup_precomp. `w` is the width of the word.
use fideslib.Prelude.{
  ℕ, ◌+◌, ◌-◌, ◌*◌, ◌/◌, ◌%◌, ◌^◌, ◌≤◌, ◌<◌, ◌≡◌, sym, ap, ◌∙◌, inl, inr, arith, ltb, Bool-cases,
}
use fideslib.Prelude.Mod.{mod_unique, mul-mod_right_factor}
use fideslib.Modular.Words.{cond_sub, cond_sub-eq-mod, cond_sub_residue}
use native.Mathlib.Nat.{
  div-add-mod', mod-lt, add-mod, mul_comm, mod-eq_of_lt, mod-add-mod, div-lt_iff_lt-mul,
  mul-lt-mul_of_pos_right, mul-le-mul, le_of_mul-le-mul_right, lt_of_mul-lt-mul_right,
}

-- c = umulhi(op1, psi); c_lo = op1 * op2 - c * prime, on words; one conditional subtraction.
unfoldable pub shoup_mult : ℕ → ℕ → ℕ → ℕ → ℕ → ℕ
shoup_mult w op1 op2 psi prime =
    let c = op1 * psi / 2 ^ w in
    let c_lo = (op1 * op2 % 2 ^ w + 2 ^ w - c * prime % 2 ^ w) % 2 ^ w in cond_sub c_lo prime

unfoldable pub shoup_mult_64 : ℕ → ℕ → ℕ → ℕ → ℕ
shoup_mult_64 = shoup_mult 64

unfoldable pub shoup_mult_32 : ℕ → ℕ → ℕ → ℕ → ℕ
shoup_mult_32 = shoup_mult 32

-- (__uint128_t)(val << 1) * (1ul << 63) / prime, where `val << 1` is a 64-bit word; the result is
-- returned as a 64-bit word.
unfoldable pub shoup_precomp : ℕ → ℕ → ℕ
shoup_precomp val prime = val * 2 % 2 ^ 64 * 2 ^ 63 / prime % 2 ^ 64

sub_mod : (m x y d : ℕ) → x ≡ y + d → d < m → (x % m + m - y % m) % m ≡ d
sub_mod m x y d e h =
    let u<m : y % m < m = mod-lt y {m = m} (omega arith) in
    let x-mod : x % m ≡ (y % m + d) % m = ap (λ (t : ℕ). t % m) e ∙ sym (mod-add-mod y m d) in
    elim (Bool-cases (ltb (y % m + d) m)) [
      | inl low ↦
          let v : x % m ≡ y % m + d = x-mod ∙ mod-eq_of_lt (ground arith) in
          mod_unique d 1 m h (omega arith)
      | inr high ↦
          let v : x % m ≡ y % m + d - m =
            x-mod ∙ mod_unique (y % m + d - m) 1 m (omega arith) (ground arith) in
          mod_unique d 0 m h (ground arith)
    ]

-- The word's difference of two numbers is their difference, where that is not negative and fits.
pub sub_word : (w x y d : ℕ) → x ≡ y + d → d < 2 ^ w → (x % 2 ^ w + 2 ^ w - y % 2 ^ w) % 2 ^ w ≡ d
sub_word w x y d e h = sub_mod (2 ^ w) x y d e h

-- The quotient's estimate is at most 1 too small: the remainder left is below 2 * prime.
estimate :
    (B op1 op2 p : ℕ)
    → op1 < B
    → 0 < p
    → let c = op1 * (op2 * B / p) / B in (d : ℕ) × (op1 * op2 ≡ c * p + d) × (d < 2 * p)
estimate B op1 op2 p h hp =
    let psi = op2 * B / p in
    let c = op1 * psi / B in
    let r0 = op2 * B % p in
    let s = op1 * psi % B in
    let small : r0 < p = mod-lt (op2 * B) hp in
    let short : s < B = mod-lt (op1 * psi) {m = B} (omega arith) in
    let e0 : psi * p + r0 ≡ op2 * B = div-add-mod' (op2 * B) p in
    let e1 : c * B + s ≡ op1 * psi = div-add-mod' (op1 * psi) B in
    let total : c * p * B + (s * p + op1 * r0) ≡ op1 * op2 * B =
      omega (arith, ap (λ (t : ℕ). op1 * t) e0, ap (λ (t : ℕ). t * p) e1) in
    let upper : s * p + op1 * r0 < 2 * p * B = omega (
      arith,
      mul-lt-mul_of_pos_right short hp,
      mul-le-mul {n₁ = op1} {m₁ = r0} {n₂ = B} {m₂ = p} (omega arith) (omega arith),
    ) in
    let below : c * p ≤ op1 * op2 =
      le_of_mul-le-mul_right {k = B} (omega (arith, total)) (omega arith) in
    let d = op1 * op2 - c * p in
    let split : c * p + d ≡ op1 * op2 = omega arith in
    let scaled : c * p * B + d * B ≡ op1 * op2 * B = omega (arith, ap (λ (t : ℕ). t * B) split) in
    (d, sym split, lt_of_mul-lt-mul_right B (omega (arith, scaled, total, upper)))

-- Shoup's multiplication on words of w bits, with the factor floor (op2 * 2 ^ w / p), is the product
-- modulo p, for any word op1, any op2, and a positive p of at most half the word's range.
pub shoup_mult-eq-mod :
    (w op1 op2 p : ℕ)
    → op1 < 2 ^ w
    → 0 < p
    → 2 * p ≤ 2 ^ w
    → shoup_mult w op1 op2 (op2 * 2 ^ w / p) p ≡ op1 * op2 % p
unfolding shoup_mult
shoup_mult-eq-mod w op1 op2 p h hp fits =
    let (d, e, below) = estimate (2 ^ w) op1 op2 p h hp in
    let c = op1 * (op2 * 2 ^ w / p) / 2 ^ w in
    let exact : (op1 * op2 % 2 ^ w + 2 ^ w - c * p % 2 ^ w) % 2 ^ w ≡ d =
      sub_word w (op1 * op2) (c * p) d e (omega arith) in
    rw exact (cond_sub_residue c d p e below)

-- The precomputed factor of a residue does not wrap.
pub shoup_precomp-eq-div :
    (val p : ℕ) → val < p → p ≤ 2 ^ 63 → shoup_precomp val p ≡ val * 2 ^ 64 / p
unfolding shoup_precomp
shoup_precomp-eq-div val p h hp =
    let fits : val * 2 ^ 64 / p < 2 ^ 64 = (div-lt_iff_lt-mul (omega arith)).1 (omega arith) in
    let wide : val * 2 % 2 ^ 64 * 2 ^ 63 ≡ val * 2 ^ 64 = omega arith in rw wide (mod-eq_of_lt fits)

-- Shoup_mult_64 with the factor shoup_precomp is the product modulo p, for any word op1, an op2
-- below p, and a p of at most 2 ^ 63.
pub shoup_mult_64-precomp :
    (op1 op2 p : ℕ)
    → op1 < 2 ^ 64
    → op2 < p
    → p ≤ 2 ^ 63
    → shoup_mult_64 op1 op2 (shoup_precomp op2 p) p ≡ op1 * op2 % p
unfolding shoup_mult_64
shoup_mult_64-precomp op1 op2 p h1 h2 hp =
    rw (shoup_precomp-eq-div op2 p h2 hp)
      (shoup_mult-eq-mod 64 op1 op2 p h1 (omega arith) (omega arith))

-- `inv64` and `r64_shoup` are the constant tables' factors for 1 and for 2 ^ 64 mod p.
unfoldable pub shoup_reduce_128 : ℕ → ℕ → ℕ → ℕ → ℕ
shoup_reduce_128 x p inv64 r64_shoup =
    let r64 = (2 ^ 64 - p * inv64 % 2 ^ 64) % 2 ^ 64 in
    let hi = x / 2 ^ 64 in
    let lo = x % 2 ^ 64 in
    let t = shoup_mult_64 hi r64 r64_shoup p in
    let q2 = lo * inv64 / 2 ^ 64 in
    let u = (lo + 2 ^ 64 - q2 * p % 2 ^ 64) % 2 ^ 64 in cond_sub ((t + cond_sub u p) % 2 ^ 64) p

low_half :
    (lo p : ℕ)
    → lo < 2 ^ 64
    → 0 < p
    → 2 * p ≤ 2 ^ 64
    → cond_sub ((lo + 2 ^ 64 - lo * (2 ^ 64 / p) / 2 ^ 64 * p % 2 ^ 64) % 2 ^ 64) p ≡ lo % p
low_half lo p h hp fits =
    let (d, e, below) = estimate (2 ^ 64) lo 1 p h hp in
    let q2 = lo * (2 ^ 64 / p) / 2 ^ 64 in
    let lo-split : lo ≡ q2 * p + d = omega (arith, e) in
    let exact : (lo + 2 ^ 64 - q2 * p % 2 ^ 64) % 2 ^ 64 ≡ d =
      omega (arith, sub_mod (2 ^ 64) lo (q2 * p) d lo-split (omega arith), mod-eq_of_lt h) in
    rw exact (cond_sub_residue q2 d p lo-split below)

high_residue :
    (p : ℕ) → 0 < p → p ≤ 2 ^ 63 → (2 ^ 64 - p * (2 ^ 64 / p) % 2 ^ 64) % 2 ^ 64 ≡ 2 ^ 64 % p
high_residue p hp fits =
    omega (arith, div-add-mod' (2 ^ 64) p, mul_comm p (2 ^ 64 / p), mod-lt (2 ^ 64) {m = p} hp)

add_residues :
    (a b p : ℕ) → 0 < p → p ≤ 2 ^ 63 → cond_sub ((a % p + b % p) % 2 ^ 64) p ≡ (a + b) % p
add_residues a b p hp fits =
    let ha : a % p < p = mod-lt a hp in
    let hb : b % p < p = mod-lt b hp in
    let exact : (a % p + b % p) % 2 ^ 64 ≡ a % p + b % p = mod-eq_of_lt (omega arith) in
    rw exact (cond_sub-eq-mod (a % p + b % p) p (omega arith) ∙ sym (add-mod a b p))

-- Shoup_reduce_128 with the tables' factors is the remainder of every 128-bit number, for a modulus
-- larger than 1 and at most 2 ^ 63.
pub shoup_reduce_128-eq-mod :
    (x p : ℕ)
    → x < 2 ^ 128
    → 1 < p
    → p ≤ 2 ^ 63
    → shoup_reduce_128 x p (shoup_precomp 1 p) (shoup_precomp (2 ^ 64 % p) p) ≡ x % p
unfolding shoup_reduce_128
shoup_reduce_128-eq-mod x p h hp fits =
    let hi = x / 2 ^ 64 in
    let lo = x % 2 ^ 64 in
    let r64 = 2 ^ 64 % p in
    let one : shoup_precomp 1 p ≡ 2 ^ 64 / p = shoup_precomp-eq-div 1 p hp fits in
    let small : r64 < p = mod-lt (2 ^ 64) {m = p} (omega arith) in
    let high : shoup_mult_64 hi r64 (shoup_precomp r64 p) p ≡ hi * r64 % p =
      shoup_mult_64-precomp hi r64 p (omega arith) small fits in
    let low : cond_sub ((lo + 2 ^ 64 - lo * (2 ^ 64 / p) / 2 ^ 64 * p % 2 ^ 64) % 2 ^ 64) p
        ≡ lo % p =
      low_half lo p (omega arith) (omega arith) (omega arith) in
    let r64-eq : (2 ^ 64 - p * (2 ^ 64 / p) % 2 ^ 64) % 2 ^ 64 ≡ r64 =
      high_residue p (omega arith) fits in
    rw (one, r64-eq, high, low)
      (add_residues (hi * r64) lo p (omega arith) fits
        ∙ add-mod (hi * r64) lo p
        ∙ ap (λ (t : ℕ). (t + lo % p) % p) (mul-mod_right_factor hi (2 ^ 64) p)
        ∙ sym (add-mod (hi * 2 ^ 64) lo p)
        ∙ ap (λ (t : ℕ). t % p) (div-add-mod' x (2 ^ 64)))
