-- ===== src/Modular/Barrett.antt =====
-- src/ModMult.cuh: Neal_mult_64, Neal_mult_32, Neal_reduce_64, Neal_reduce_32; src/ConstantsGPU.cu:
-- mu_new for the version NEIL, which the build selects. `w` is the width of the word.
use fideslib.Prelude.{ℕ, suc, ◌+◌, ◌-◌, ◌*◌, ◌/◌, ◌%◌, ◌^◌, ◌≤◌, ◌<◌, ◌≡◌, sym, ap, ◌∙◌, arith}
use mathlib.Core.Path.{ap₂}
use fideslib.Prelude.Mod.{pow_add}
use fideslib.Modular.Words.{cond_sub, cond_sub_residue}
use fideslib.Modular.Shoup.{sub_word}
use native.Mathlib.Nat.{
  two-pow-succ, one-le-pow, pow-suc, pow-le-pow_right, mul-lt-mul_of_pos_left, div-lt_iff_lt-mul,
  div-div-eq-div-mul, mul-div-mul_right, div-add-mod', mod-lt, mul-le-mul, mul-le-mul_right,
  le_of_mul-le-mul_right, lt_of_mul-lt-mul_right, lt_of_mul-lt-mul_left, mul-lt-mul_of_pos_right,
  mod-eq_of_lt,
}

-- ((__uint128_t)1 << (2 * num_bits + 1)) / q, returned as a 64-bit word
unfoldable pub mu_new : ℕ → ℕ → ℕ
mu_new q num_bits = 2 ^ (2 * num_bits + 1) % 2 ^ 128 / q % 2 ^ 64

-- `c` has twice the width of the word.
unfoldable pub neal_reduce : ℕ → ℕ → ℕ → ℕ → ℕ → ℕ
neal_reduce w c mu prime qbit =
    let rx = c / 2 ^ (qbit - 2) % 2 ^ w in
    let rb = rx * 2 ^ (w - 2 - qbit) % 2 ^ w * mu / 2 ^ w / 2 in
    let c_lo = (c % 2 ^ w + 2 ^ w - rb * prime % 2 ^ w) % 2 ^ w in cond_sub c_lo prime

unfoldable pub neal_reduce_64 : ℕ → ℕ → ℕ → ℕ → ℕ
neal_reduce_64 = neal_reduce 64

unfoldable pub neal_reduce_32 : ℕ → ℕ → ℕ → ℕ → ℕ
neal_reduce_32 = neal_reduce 32

unfoldable pub neal_mult : ℕ → ℕ → ℕ → ℕ → ℕ → ℕ → ℕ
neal_mult w op1 op2 mu prime qbit =
    let c = op1 * op2 % 2 ^ (2 * w) in
    let rx = c / 2 ^ (qbit - 2) % 2 ^ w in
    let rb = rx * 2 ^ (w - 2 - qbit) % 2 ^ w * mu / 2 ^ w / 2 in
    let c_lo = (c % 2 ^ w + 2 ^ w - rb * prime % 2 ^ w) % 2 ^ w in cond_sub c_lo prime

unfoldable pub neal_mult_64 : ℕ → ℕ → ℕ → ℕ → ℕ → ℕ
neal_mult_64 = neal_mult 64

unfoldable pub neal_mult_32 : ℕ → ℕ → ℕ → ℕ → ℕ → ℕ
neal_mult_32 = neal_mult 32

-- Barrett's estimate of the quotient by two floors is at most 1 too small. `S` is the first
-- shift, `D` the second, and `S * D / p` the precomputed factor.
pub estimate :
    (S D p c : ℕ)
    → 0 < S
    → 2 * S ≤ p
    → 2 * c < S * D
    → let q = c / S * (S * D / p) / D in (d : ℕ) × (c ≡ q * p + d) × (d < 2 * p)
estimate S D p c pos half small =
    let rx = c / S in
    let mu = S * D / p in
    let q = rx * mu / D in
    let rc = c % S in
    let rm = S * D % p in
    let rq = rx * mu % D in
    let Dpos : 0 < D = lt_of_mul-lt-mul_left S (omega arith) in
    let lc : rc < S = mod-lt c pos in
    let lm : rm < p = mod-lt (S * D) {m = p} (omega arith) in
    let lq : rq < D = mod-lt (rx * mu) Dpos in
    let ec : rx * S + rc ≡ c = div-add-mod' c S in
    let em : mu * p + rm ≡ S * D = div-add-mod' (S * D) p in
    let eq : q * D + rq ≡ rx * mu = div-add-mod' (rx * mu) D in
    -- c * D, written out by the three divisions
    let total : q * p * D + (rq * p + rx * rm + rc * D) ≡ c * D =
      omega
        (arith, ap (λ (t : ℕ). t * D) ec, ap (λ (t : ℕ). rx * t) em, ap (λ (t : ℕ). t * p) eq) in
    let below : q * p ≤ c = le_of_mul-le-mul_right {k = D} (omega (arith, total)) Dpos in
    let rx-small : 2 * rx < D = lt_of_mul-lt-mul_right S (omega (arith, ec)) in
    let upper : rq * p + rx * rm + rc * D < 2 * p * D = omega (
      arith,
      mul-lt-mul_of_pos_right {k = p} lq (omega arith),
      mul-le-mul {n₁ = 2 * rx} {m₁ = rm} {n₂ = D} {m₂ = p} (omega arith) (omega arith),
      mul-le-mul_right {m = 2 * rc} {n = p} D (omega arith),
    ) in
    let d = c - q * p in
    let split : q * p + d ≡ c = omega arith in
    let scaled : q * p * D + d * D ≡ c * D = omega (arith, ap (λ (t : ℕ). t * D) split) in
    (d, sym split, lt_of_mul-lt-mul_right D (omega (arith, scaled, total, upper)))

-- For a prime of exactly `n` bits, the powers that the estimate needs.
module _ (w n p : ℕ) (two : 2 ≤ n) (fits : n + 2 ≤ w) (low : 2 ^ (n - 1) < p)
    (high : p < 2 ^ n) where
  pow_split : 2 ^ (n - 2) * 2 ^ (n + 3) ≡ 2 ^ (2 * n + 1)
  pow_split = sym (pow_add 2 (n - 2) (n + 3)) ∙ ap (λ (t : ℕ). 2 ^ t) (omega arith)

  half : 2 * 2 ^ (n - 2) ≤ p
  half =
      let e : suc (n - 2) ≡ n - 1 = omega arith in
      omega (arith, two-pow-succ (n - 2), ap (λ (t : ℕ). 2 ^ t) e)

  -- The product of two residues, and more: any `c` below 2 ^ (2 * n).
  double : (c : ℕ) → c < 2 ^ (2 * n) → 2 * c < 2 ^ (n - 2) * 2 ^ (n + 3)
  double c h = omega (arith, pow_split, pow_add 2 (2 * n) 1)

  rx_fits : (c : ℕ) → c < 2 ^ (2 * n) → c / 2 ^ (n - 2) < 2 ^ (n + 2)
  rx_fits c h = (div-lt_iff_lt-mul (one-le-pow (n - 2) 2 (omega arith))).1 (
      let e : n + 2 + (n - 2) ≡ 2 * n = omega arith in
      omega (arith, pow_add 2 (n + 2) (n - 2), ap (λ (t : ℕ). 2 ^ t) e))

  shifted_fits : (x : ℕ) → x < 2 ^ (n + 2) → x * 2 ^ (w - 2 - n) < 2 ^ w
  shifted_fits x h =
      let e : n + 2 + (w - 2 - n) ≡ w = omega arith in
      let grow : x * 2 ^ (w - 2 - n) < 2 ^ (n + 2) * 2 ^ (w - 2 - n) =
        mul-lt-mul_of_pos_right h (one-le-pow (w - 2 - n) 2 (omega arith)) in
      omega (arith, grow, pow_add 2 (n + 2) (w - 2 - n), ap (λ (t : ℕ). 2 ^ t) e)

  -- The two shifts of the high word are one division.
  shifts : (x mu : ℕ) → x * 2 ^ (w - 2 - n) * mu / 2 ^ w / 2 ≡ x * mu / 2 ^ (n + 3)
  shifts x mu =
      let J = 2 ^ (w - 2 - n) in
      let e : n + 3 + (w - 2 - n) ≡ suc w = omega arith in
      let numerator : x * J * mu ≡ x * mu * J = omega arith in
      let denominator : 2 ^ w * 2 ≡ 2 ^ (n + 3) * J =
        sym (pow-suc 2 w) ∙ ap (λ (t : ℕ). 2 ^ t) (sym e) ∙ pow_add 2 (n + 3) (w - 2 - n) in
      div-div-eq-div-mul (x * J * mu) (2 ^ w) 2
      ∙ ap₂ ◌/◌ numerator denominator
      ∙ mul-div-mul_right {m = J} (x * mu) (2 ^ (n + 3)) (one-le-pow (w - 2 - n) 2 (omega arith))

  mu_fits : 2 ^ (2 * n + 1) / p < 2 ^ w
  mu_fits =
      let e : n + 2 + (n - 1) ≡ 2 * n + 1 = omega arith in
      let product : 2 ^ (2 * n + 1) ≡ 2 ^ (n + 2) * 2 ^ (n - 1) =
        ap (λ (t : ℕ). 2 ^ t) (sym e) ∙ pow_add 2 (n + 2) (n - 1) in
      let grow : 2 ^ (n + 2) * 2 ^ (n - 1) < 2 ^ (n + 2) * p =
        mul-lt-mul_of_pos_left low (one-le-pow (n + 2) 2 (omega arith)) in
      let widen : 2 ^ (n + 2) * p ≤ 2 ^ w * p =
        mul-le-mul_right p (pow-le-pow_right {n = 2} (omega arith) fits) in
      (div-lt_iff_lt-mul (omega arith)).1 (omega (arith, product, grow, widen))

  -- With the precomputed factor the reduction is exact on every `c` below 2 ^ (2 * n).
  pub reduce_exact : (c : ℕ) → c < 2 ^ (2 * n) → neal_reduce w c (2 ^ (2 * n + 1) / p) p n ≡ c % p
  unfolding neal_reduce
  reduce_exact c h =
      let rx = c / 2 ^ (n - 2) in
      let mu = 2 ^ (2 * n + 1) / p in
      let rx-lt : rx < 2 ^ (n + 2) = rx_fits c h in
      let rx-word : rx % 2 ^ w ≡ rx =
        mod-eq_of_lt {n = rx}
          (omega (arith, pow-le-pow_right {n = 2} (omega arith) {i = n + 2} {j = w} fits)) in
      let shifted-word : rx * 2 ^ (w - 2 - n) % 2 ^ w ≡ rx * 2 ^ (w - 2 - n) =
        mod-eq_of_lt (shifted_fits rx rx-lt) in
      let q = rx * mu / 2 ^ (n + 3) in
      let (d, e, below) =
        estimate (2 ^ (n - 2)) (2 ^ (n + 3)) p c (one-le-pow (n - 2) 2 (omega arith)) half
          (double c h) in
      let e' : c ≡ q * p + d = e ∙ ap (λ (t : ℕ). rx * (t / p) / 2 ^ (n + 3) * p + d) pow_split in
      let small : d < 2 ^ w =
        omega
          (arith, pow_add 2 n 2, pow-le-pow_right {n = 2} (omega arith) {i = n + 2} {j = w} fits) in
      rw (rx-word, shifted-word, shifts rx mu, sub_word w c (q * p) d e' small)
        (cond_sub_residue q d p e' below)

-- The host's factor does not wrap, for a prime of at most 62 bits.
mu_new-eq-div :
    (p n : ℕ) → 2 ≤ n → n ≤ 62 → 2 ^ (n - 1) < p → p < 2 ^ n → mu_new p n ≡ 2 ^ (2 * n + 1) / p
unfolding mu_new
mu_new-eq-div p n two fits low high =
    let wide : 2 ^ (2 * n + 1) < 2 ^ 128 =
      omega
        (arith, pow-le-pow_right {n = 2} (omega arith) {i = 2 * n + 1} {j = 125} (omega arith)) in
    rw (mod-eq_of_lt wide) (mod-eq_of_lt (mu_fits 64 n p two (omega arith) low high))

-- Neal_reduce_64 with the factor mu_new, for a modulus strictly between 2 ^ (n - 1) and 2 ^ n, with
-- n from 2 to 62, is the remainder of every number below 2 ^ (2 * n).
pub neal_reduce_64-eq-mod :
    (c p n : ℕ)
    → 2 ≤ n
    → n ≤ 62
    → 2 ^ (n - 1) < p
    → p < 2 ^ n
    → c < 2 ^ (2 * n)
    → neal_reduce_64 c (mu_new p n) p n ≡ c % p
unfolding neal_reduce_64
neal_reduce_64-eq-mod c p n two fits low high h =
    rw (mu_new-eq-div p n two fits low high) (reduce_exact 64 n p two (omega arith) low high c h)

mult-reduce :
    (w a b mu p n : ℕ) → a * b < 2 ^ (2 * w) → neal_mult w a b mu p n ≡ neal_reduce w (a * b) mu p n
unfolding neal_mult neal_reduce
mult-reduce w a b mu p n h = rw (mod-eq_of_lt h)

-- Neal_mult_64 of two residues with the factor mu_new is the product modulo p, for a modulus p
-- strictly between 2 ^ (n - 1) and 2 ^ n, with n from 2 to 62.
pub neal_mult_64-eq-mod :
    (a b p n : ℕ)
    → 2 ≤ n
    → n ≤ 62
    → 2 ^ (n - 1) < p
    → p < 2 ^ n
    → a < p
    → b < p
    → neal_mult_64 a b (mu_new p n) p n ≡ a * b % p
unfolding neal_mult_64
neal_mult_64-eq-mod a b p n two fits low high ha hb =
    let e : n + n ≡ 2 * n = omega arith in
    let square : p * p < 2 ^ (2 * n) = omega (
      arith,
      mul-lt-mul_of_pos_left {m = p} {n = 2 ^ n} {k = p} high (omega arith),
      mul-le-mul_right {m = p} {n = 2 ^ n} (2 ^ n) (omega arith),
      pow_add 2 n n,
      ap (λ (t : ℕ). 2 ^ t) e,
    ) in
    let small : a * b < 2 ^ (2 * n) =
      omega (
        arith,
        square,
        mul-le-mul {n₁ = a} {m₁ = b} {n₂ = p} {m₂ = p} (omega arith) (omega arith),
      ) in
    let word : a * b < 2 ^ (2 * 64) =
      omega (
        arith,
        small,
        pow-le-pow_right {n = 2} (omega arith) {i = 2 * n} {j = 128} (omega arith),
      ) in
    rw (mu_new-eq-div p n two fits low high) (
      mult-reduce 64 a b (2 ^ (2 * n + 1) / p) p n word
      ∙ reduce_exact 64 n p two (omega arith) low high (a * b) small)
