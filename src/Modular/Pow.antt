-- ===== src/Modular/Pow.antt =====
-- src/Math.cu: modpow, modinv. The loop takes fuel, one unit for each bit of the exponent and one
-- to leave; `none` means that it ran out.
use fideslib.Prelude.{
  ℕ, zero, suc, ◌-◌, ◌*◌, ◌/◌, ◌%◌, ◌^◌, ◌≤◌, ◌<◌, ◌≡◌, true, false, refl, sym, ap, ◌∙◌, inl, inr,
  Option, some, none, arith, ◌==◌, if◌then◌else◌, Bool-cases,
}
use fideslib.Prelude.Mod.{
  mul-mod_left_factor, mul-mod_right_factor, pow-mod_base, pow_half_even, pow_half_odd,
}
use native.Mathlib.Nat.{
  mod-eq_of_lt, mod-lt, pow-zero, pow-suc, mul_assoc, one-mul, mul-one, two-pow-succ,
}

modpow_loop : ℕ → ℕ → ℕ → ℕ → ℕ → Option ℕ
modpow_loop zero a e r p = none
modpow_loop (suc fuel) a e r p = elim (e == 0) [
  | true ↦ some r
  | false ↦
      modpow_loop fuel (a * a % 2 ^ 128 % p) (e / 2) (if e % 2 == 1 then a * r % 2 ^ 128 % p else r)
        p
]

unfoldable pub modpow : ℕ → ℕ → ℕ → Option ℕ
unfolding modpow_loop
modpow a e p = modpow_loop 65 a e 1 p

unfoldable pub modinv : ℕ → ℕ → Option ℕ
modinv a p = modpow a (p - 2) p

-- The two ways in which a round changes base and accumulator keep the value `a ^ e * r`.
round_even : (a e r p : ℕ) → e % 2 ≡ 0 → (a * a % p) ^ (e / 2) * r % p ≡ a ^ e * r % p
round_even a e r p h =
    sym (mul-mod_left_factor ((a * a % p) ^ (e / 2)) r p)
    ∙ ap (λ (t : ℕ). t * r % p) (pow-mod_base (a * a) p (e / 2))
    ∙ mul-mod_left_factor ((a * a) ^ (e / 2)) r p
    ∙ ap (λ (t : ℕ). t * r % p) (sym (pow_half_even a e h))

round_odd : (a e r p : ℕ) → e % 2 ≡ 1 → (a * a % p) ^ (e / 2) * (a * r % p) % p ≡ a ^ e * r % p
round_odd a e r p h =
    mul-mod_right_factor ((a * a % p) ^ (e / 2)) (a * r) p
    ∙ sym (mul-mod_left_factor ((a * a % p) ^ (e / 2)) (a * r) p)
    ∙ ap (λ (t : ℕ). t * (a * r) % p) (pow-mod_base (a * a) p (e / 2))
    ∙ mul-mod_left_factor ((a * a) ^ (e / 2)) (a * r) p
    ∙ ap (λ (t : ℕ). t % p) (sym (mul_assoc ((a * a) ^ (e / 2)) a r))
    ∙ ap (λ (t : ℕ). t * r % p) (sym (pow_half_odd a e h))

wide : (a b : ℕ) → a < 2 ^ 64 → b < 2 ^ 64 → a * b % 2 ^ 128 ≡ a * b
wide a b ha hb = mod-eq_of_lt (grind arith)

loop_stop : (f a r p : ℕ) → modpow_loop (suc f) a 0 r p ≡ some r
unfolding modpow_loop
loop_stop f a r p = refl

loop_round :
    (f a e r p : ℕ)
    → modpow_loop (suc f) a (suc e) r p
      ≡ modpow_loop f
          (a * a % 2 ^ 128 % p)
          (suc e / 2)
          (if suc e % 2 == 1 then a * r % 2 ^ 128 % p else r)
          p
unfolding modpow_loop
loop_round f a e r p =
    let nonzero : (suc e == 0) ≡ false = ground arith in rw (nonzero, modpow_loop)

-- With more units of fuel than the exponent has bits, the loop returns the power.
modpow_loop_lem :
    (f a e r p : ℕ)
    → a < 2 ^ 64
    → p ≤ 2 ^ 64
    → r < p
    → e < 2 ^ f
    → modpow_loop (suc f) a e r p ≡ some (a ^ e * r % p)
modpow_loop_lem f a zero r p ha hp hr he =
    loop_stop f a r p ∙ ap some (rw (pow-zero, one-mul) (sym (mod-eq_of_lt hr)))
modpow_loop_lem zero a (suc e) r p ha hp hr he = absurd (omega arith)
modpow_loop_lem (suc f) a (suc e) r p ha hp hr he =
    let small : a * a % p < 2 ^ 64 = omega (arith, mod-lt (a * a) {m = p} (omega arith)) in
    let half : suc e / 2 < 2 ^ f = grind (arith, two-pow-succ f) in
    loop_round (suc f) a e r p ∙ elim (Bool-cases (suc e % 2 == 1)) [
      | inl odd ↦
          rw (odd, wide a a ha ha, wide a r ha (omega arith))
            (modpow_loop_lem f (a * a % p) (suc e / 2) (a * r % p) p small hp
                (mod-lt (a * r) {m = p} (omega arith)) half
              ∙ ap some (round_odd a (suc e) r p (ground arith)))
      | inr even ↦
          rw (even, wide a a ha ha)
            (modpow_loop_lem f (a * a % p) (suc e / 2) r p small hp hr half
              ∙ ap some (round_even a (suc e) r p (ground arith)))
    ]

-- modpow, for a 64-bit base and exponent and a modulus from 2 to 2 ^ 64: the loop ends, after at
-- most 64 rounds, and returns the power modulo p.
pub modpow-pow :
    (a e p : ℕ) → a < 2 ^ 64 → e < 2 ^ 64 → 1 < p → p ≤ 2 ^ 64 → modpow a e p ≡ some (a ^ e % p)
unfolding modpow
modpow-pow a e p ha he one hp =
    modpow_loop_lem 64 a e 1 p ha hp one he ∙ ap (λ (t : ℕ). some (t % p)) (mul-one (a ^ e))

-- modinv, for a 64-bit a and a modulus p from 3 to 2 ^ 64 with a ^ (p - 1) = 1 modulo p, returns
-- a number below p whose product with a is 1 modulo p.
pub modinv-inverse :
    (a p : ℕ)
    → a < 2 ^ 64
    → 2 < p
    → p ≤ 2 ^ 64
    → a ^ (p - 1) % p ≡ 1
    → (x : ℕ) × (modinv a p ≡ some x) × (x * a % p ≡ 1) × (x < p)
unfolding modinv
modinv-inverse a p ha two hp fermat = (
  a ^ (p - 2) % p,
  modpow-pow a (p - 2) p ha (omega arith) (omega arith) hp,
  let e : suc (p - 2) ≡ p - 1 = omega arith in
      mul-mod_left_factor (a ^ (p - 2)) a p
      ∙ ap (λ (t : ℕ). t % p) (sym (pow-suc a (p - 2)))
      ∙ rw e fermat,
  mod-lt (a ^ (p - 2)) {m = p} (omega arith),
)
