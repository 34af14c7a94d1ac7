-- ===== src/Tests/Modular.antt =====
-- The modular arithmetic at concrete words.
use fideslib.Prelude.{ℕ, ◌+◌, ◌-◌, ◌*◌, ◌%◌, ◌^◌, ◌<◌, ◌≡◌, ◌==◌, refl, some, arith, if◌then◌else◌}
use fideslib.Modular.Words.{modadd, modadd-eq_if}
use fideslib.Modular.Pow.{modpow, modinv, modpow-pow, modinv-inverse}
use fideslib.Modular.Shoup.{
  shoup_mult_64, shoup_precomp, shoup_reduce_128, shoup_mult_64-precomp, shoup_reduce_128-eq-mod,
}
use fideslib.Modular.Barrett.{
  mu_new, neal_mult_64, neal_reduce_64, neal_mult_64-eq-mod, neal_reduce_64-eq-mod,
}

-- 2 ^ 60 + 2 ^ 14 + 1, a prime of 61 bits
abbrev prime : ℕ
prime = 1152921504606863361

modpow_test : modpow 3 200 1_000_000_007 ≡ some (3 ^ 200 % 1_000_000_007)
unfolding modpow
modpow_test = refl

modadd-eq_if_example :
    modadd (prime - 5) 5 prime ≡ (if prime - 5 + 5 == prime then prime else (prime - 5 + 5) % prime)
modadd-eq_if_example = modadd-eq_if (prime - 5) 5 prime (omega arith) (omega arith) (omega arith)

modpow-pow_example : modpow 3 5 17 ≡ some (3 ^ 5 % 17)
modpow-pow_example = modpow-pow 3 5 17 (omega arith) (omega arith) (omega arith) (omega arith)

modinv-inverse_example : (x : ℕ) × (modinv 3 17 ≡ some x) × (x * 3 % 17 ≡ 1) × (x < 17)
modinv-inverse_example = modinv-inverse 3 17 (omega arith) (omega arith) (omega arith) refl

shoup_mult_64-precomp_example :
    shoup_mult_64 (prime + 7) 12345 (shoup_precomp 12345 prime) prime ≡ (prime + 7) * 12345 % prime
shoup_mult_64-precomp_example =
    shoup_mult_64-precomp (prime + 7) 12345 prime (omega arith) (omega arith) (omega arith)

shoup_reduce_128-eq-mod_example :
    shoup_reduce_128 (2 ^ 100) prime (shoup_precomp 1 prime) (shoup_precomp (2 ^ 64 % prime) prime)
    ≡ 2 ^ 100 % prime
shoup_reduce_128-eq-mod_example =
    shoup_reduce_128-eq-mod (2 ^ 100) prime (omega arith) (omega arith) (omega arith)

neal_mult_64-eq-mod_example :
    neal_mult_64 (prime - 1) (prime - 2) (mu_new prime 61) prime 61
    ≡ (prime - 1) * (prime - 2) % prime
neal_mult_64-eq-mod_example =
    neal_mult_64-eq-mod (prime - 1) (prime - 2) prime 61 (omega arith) (omega arith) (omega arith)
      (omega arith) (omega arith) (omega arith)

neal_reduce_64-eq-mod_example :
    neal_reduce_64 (2 ^ 120) (mu_new prime 61) prime 61 ≡ 2 ^ 120 % prime
neal_reduce_64-eq-mod_example =
    neal_reduce_64-eq-mod (2 ^ 120) prime 61 (omega arith) (omega arith) (omega arith) (omega arith)
      (omega arith)
