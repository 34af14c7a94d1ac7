-- ===== src/Modular/Words.antt =====
-- src/AddSub.cuh (modadd, modsub on the device) and src/Math.cu (modadd, modsub, modprod on the
-- host). `w` is the width of the word: 64, and 32 for the device's other instance.
use fideslib.Prelude.{
  ℕ, ◌+◌, ◌-◌, ◌*◌, ◌%◌, ◌^◌, ◌≤◌, ◌<◌, ◌≡◌, ◌==◌, sym, ap, ◌∙◌, inl, inr, arith, ltb, leb,
  if◌then◌else◌, Bool-cases,
}
use fideslib.Prelude.Mod.{mod_unique, mod_eq_of_add_mul}
use native.Mathlib.Nat.{mod-eq_of_lt}

-- (c >= p) ? c - p : c, the correction that ends the kernels' reductions
unfoldable pub cond_sub : ℕ → ℕ → ℕ
cond_sub c p = if leb p c then c - p else c

pub cond_sub-eq-mod : (c p : ℕ) → c < 2 * p → cond_sub c p ≡ c % p
unfolding cond_sub
cond_sub-eq-mod c p h = elim (Bool-cases (leb p c)) [
  | inl big ↦ rw big (sym (mod_unique (c - p) 1 p (ground arith) (ground arith)))
  | inr small ↦ rw small (sym (mod_unique c 0 p (ground arith) (ground arith)))
]

-- The same, of a number that is known up to a multiple of the prime.
pub cond_sub_residue : {x : ℕ} (q c p : ℕ) → x ≡ q * p + c → c < 2 * p → cond_sub c p ≡ x % p
cond_sub_residue q c p e h =
    cond_sub-eq-mod c p h ∙ sym (mod_eq_of_add_mul c q p (omega (arith, e)))

-- T tmp0 = a + b; (tmp0 >= p) ? tmp0 - p : tmp0
unfoldable pub modadd_gpu : ℕ → ℕ → ℕ → ℕ → ℕ
modadd_gpu w a b p = let c = (a + b) % 2 ^ w in if leb p c then c - p else c

-- T tmp0 = a - b; (tmp0 >= p) ? tmp0 + p : tmp0
unfoldable pub modsub_gpu : ℕ → ℕ → ℕ → ℕ → ℕ
modsub_gpu w a b p = let c = (a + 2 ^ w - b) % 2 ^ w in if leb p c then (c + p) % 2 ^ w else c

unfoldable pub modadd : ℕ → ℕ → ℕ → ℕ
modadd a b p = let c = (a + b) % 2 ^ 64 in if ltb p c then c - p else c

unfoldable pub modsub : ℕ → ℕ → ℕ → ℕ
modsub a b p = let c = (a + 2 ^ 64 - b) % 2 ^ 64 in if ltb p c then (c + p) % 2 ^ 64 else c

-- (__uint128_t)a * b % p
unfoldable pub modprod : ℕ → ℕ → ℕ → ℕ
modprod a b p = a * b % 2 ^ 128 % p

-- The device's 64-bit modadd, on operands below a modulus of at most 2 ^ 63, is the sum modulo p.
pub modadd_gpu-eq-mod : (a b p : ℕ) → a < p → b < p → p ≤ 2 ^ 63 → modadd_gpu 64 a b p ≡ (a + b) % p
unfolding modadd_gpu
modadd_gpu-eq-mod a b p ha hb hp = elim (Bool-cases (leb p (a + b))) [
  | inl big ↦ sym (mod_unique (modadd_gpu 64 a b p) 1 p (ground arith) (ground arith))
  | inr small ↦ sym (mod_unique (modadd_gpu 64 a b p) 0 p (ground arith) (ground arith))
]

-- The device's 64-bit modsub, on operands below a modulus of at most 2 ^ 63, is the difference
-- modulo p.
pub modsub_gpu-eq-mod :
    (a b p : ℕ) → a < p → b < p → p ≤ 2 ^ 63 → modsub_gpu 64 a b p ≡ (a + (p - b)) % p
unfolding modsub_gpu
modsub_gpu-eq-mod a b p ha hb hp = elim (Bool-cases (leb b a)) [
  | inl big ↦ sym (mod_unique (modsub_gpu 64 a b p) 1 p (ground arith) (ground arith))
  | inr small ↦ sym (mod_unique (modsub_gpu 64 a b p) 0 p (ground arith) (ground arith))
]

-- The host's modsub, on operands below a modulus of at most 2 ^ 63, is the difference modulo p.
pub modsub-eq-mod : (a b p : ℕ) → a < p → b < p → p ≤ 2 ^ 63 → modsub a b p ≡ (a + (p - b)) % p
unfolding modsub
modsub-eq-mod a b p ha hb hp = elim (Bool-cases (leb b a)) [
  | inl big ↦ sym (mod_unique (modsub a b p) 1 p (ground arith) (ground arith))
  | inr small ↦ sym (mod_unique (modsub a b p) 0 p (ground arith) (ground arith))
]

-- The host's modadd, on operands below a modulus of at most 2 ^ 63, is the sum modulo p, except
-- where the sum is p itself: there it is p, and not 0.
pub modadd-eq_if :
    (a b p : ℕ)
    → a < p
    → b < p
    → p ≤ 2 ^ 63
    → modadd a b p ≡ (if a + b == p then p else (a + b) % p)
unfolding modadd
modadd-eq_if a b p ha hb hp = elim (Bool-cases (a + b == p)) [
  | inl here ↦ rw here (ground (arith, here))
  | inr other ↦ rw other (elim (Bool-cases (ltb p (a + b))) [
    | inl big ↦ sym (mod_unique (modadd a b p) 1 p (ground arith) (ground arith))
    | inr small ↦ sym (mod_unique (modadd a b p) 0 p (ground arith) (ground arith))
  ])
]

pub modprod-eq-mod : (a b p : ℕ) → a < 2 ^ 64 → b < 2 ^ 64 → modprod a b p ≡ a * b % p
unfolding modprod
modprod-eq-mod a b p ha hb = ap (λ (t : ℕ). t % p) (mod-eq_of_lt (grind arith))
