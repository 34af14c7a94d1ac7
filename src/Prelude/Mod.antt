-- ===== src/Prelude/Mod.antt =====
-- Remainders: the quotient and remainder are unique, and products and powers of residues.
use Prim.Native.Nat.{ℕ, zero, suc, ◌+◌, ◌*◌, ◌/◌, ◌%◌, ◌^◌, ◌<◌}
use mathlib.Core.Path.{◌≡◌, ap, sym, ◌∙◌}
use native.Mathlib.Nat.{
  mod-eq_of_lt, add-mul-mod_self_right, pow-suc, pow-zero, div-add-mod', mul_assoc, mul_comm,
  mul-zero, mul-one, add-zero, add-suc,
}
use native.Mathlib.Omega.{arith}

pub mod_unique : (x q p : ℕ) {y : ℕ} → x < p → x + q * p ≡ y → y % p ≡ x
mod_unique x q p h e = rw (← e) (add-mul-mod_self_right x q p ∙ mod-eq_of_lt h)

pub mod_eq_of_add_mul : (x q p : ℕ) {y : ℕ} → x + q * p ≡ y → y % p ≡ x % p
mod_eq_of_add_mul x q p e = rw (← e) (add-mul-mod_self_right x q p)

-- A factor may be reduced before a product.
pub mul-mod_left_factor : (a b p : ℕ) → (a % p) * b % p ≡ a * b % p
mul-mod_left_factor a b p = sym (
    mod_eq_of_add_mul (a % p * b) (a / p * b) p
      (omega (arith, ap (λ (t : ℕ). t * b) (div-add-mod' a p))))

pub mul-mod_right_factor : (a b p : ℕ) → a * (b % p) % p ≡ a * b % p
mul-mod_right_factor a b p = rw (mul_comm a (b % p), mul_comm a b) (mul-mod_left_factor b a p)

pub pow-mod_base : (a p n : ℕ) → (a % p) ^ n % p ≡ a ^ n % p
pow-mod_base a p zero = rw (pow-zero, pow-zero)
pow-mod_base a p (suc n) =
    rw (pow-suc, pow-suc)
      (sym (mul-mod_left_factor ((a % p) ^ n) (a % p) p)
        ∙ ap (λ (t : ℕ). t * (a % p) % p) (pow-mod_base a p n)
        ∙ mul-mod_left_factor (a ^ n) (a % p) p
        ∙ mul-mod_right_factor (a ^ n) a p)

-- One step of square and multiply.
pub pow_double : (a k : ℕ) → a ^ (2 * k) ≡ (a * a) ^ k
pow_double a zero = rw (mul-zero, pow-zero, pow-zero)
pow_double a (suc k) =
    let e : 2 * suc k ≡ suc (suc (2 * k)) = omega arith in
    rw (e, pow-suc, pow-suc, pow-suc, mul_assoc) (ap (λ (t : ℕ). t * (a * a)) (pow_double a k))

pub pow_half_even : (a e : ℕ) → e % 2 ≡ 0 → a ^ e ≡ (a * a) ^ (e / 2)
pow_half_even a e h =
    let q : e ≡ 2 * (e / 2) = omega arith in ap (λ (t : ℕ). a ^ t) q ∙ pow_double a (e / 2)

pub pow_half_odd : (a e : ℕ) → e % 2 ≡ 1 → a ^ e ≡ (a * a) ^ (e / 2) * a
pow_half_odd a e h =
    let q : e ≡ suc (2 * (e / 2)) = omega arith in
    ap (λ (t : ℕ). a ^ t) q ∙ pow-suc a (2 * (e / 2)) ∙ ap (λ (t : ℕ). t * a) (pow_double a (e / 2))

pub pow_add : (a m n : ℕ) → a ^ (m + n) ≡ a ^ m * a ^ n
pow_add a m zero = rw (add-zero, pow-zero) (sym (mul-one (a ^ m)))
pow_add a m (suc n) =
    rw (add-suc, pow-suc a n, pow-suc a (m + n), pow_add a m n) (mul_assoc (a ^ m) (a ^ n) a)
