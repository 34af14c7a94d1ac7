-- ===== src/Pool/Sizes.antt =====
-- The sizes of the pool: what class_size rounds a request to, and the slab of a class.
use fideslib.Prelude.{
  ℕ, zero, suc, ◌+◌, ◌-◌, ◌*◌, ◌/◌, ◌^◌, ◌≤◌, ◌<◌, ◌≡◌, ◌∙◌, sym, ap, inl, inr, Bool, true, false,
  ◌&&◌, ltb, ◌==◌, arith, Bool-cases, ltb→lt, ==_iff,
}
use native.Mathlib.Nat.{pow-suc, mul-le-mul_left}
use fideslib.Prelude.Bits.{and_bits, and_pred-zero, pow_pos, pow_le}
use fideslib.Prelude.Mod.{pow_add}
use fideslib.Pool.{next_pow2, small_limit, class_size, pooled, slab_size}

next_pow2-covers : (fuel n bytes : ℕ) → bytes ≤ n * 2 ^ fuel → bytes ≤ next_pow2 fuel n bytes
unfolding next_pow2
next_pow2-covers zero n bytes h = omega arith
next_pow2-covers (suc fuel) n bytes h = ground (
  arith,
  next_pow2-covers fuel (n * 2) bytes (omega (arith, ap (λ (x : ℕ). n * x) (pow-suc 2 fuel))),
)

next_doubled :
    (fuel n bytes : ℕ)
    → ltb n bytes ≡ true
    → next_pow2 (suc fuel) n bytes ≡ next_pow2 fuel (n * 2) bytes
unfolding next_pow2
next_doubled fuel n bytes h = ground arith

next_pow2-power : (fuel n bytes : ℕ) → (i : ℕ) × (next_pow2 fuel n bytes ≡ n * 2 ^ i)
unfolding next_pow2
next_pow2-power zero n bytes = (0, omega arith)
next_pow2-power (suc fuel) n bytes = elim (Bool-cases (ltb n bytes)) [
  | inl less ↦
      let (i, e) = next_pow2-power fuel (n * 2) bytes in
      (
        suc i,
        next_doubled fuel n bytes less ∙ e ∙ omega (arith, ap (λ (x : ℕ). n * x) (pow-suc 2 i)),
      )
  | inr stop ↦ (0, ground (arith, stop))
]

-- No larger than any size of the doublings that covers the request
next_pow2-least : (fuel n bytes j : ℕ) → bytes ≤ n * 2 ^ j → next_pow2 fuel n bytes ≤ n * 2 ^ j
unfolding next_pow2
next_pow2-least fuel n bytes zero h = elim (Bool-cases (ltb n bytes)) [
  | inl less ↦ let l = ltb→lt n bytes less in absurd (omega (arith, h, l))
  | inr stop ↦ stays fuel stop
]
  where
    stays : (fuel : ℕ) → ltb n bytes ≡ false → next_pow2 fuel n bytes ≤ n * 2 ^ 0
    stays zero stop = omega arith
    stays (suc fuel) stop = rw (next_pow2, stop) (omega arith)
next_pow2-least zero n bytes (suc j) h =
    omega (arith, mul-le-mul_left n (pow_le 0 (suc j) (omega arith)))
next_pow2-least (suc fuel) n bytes (suc j) h = elim (Bool-cases (ltb n bytes)) [
  | inl less ↦
      let e : n * 2 * 2 ^ j ≡ n * 2 ^ suc j = omega (arith, ap (λ (x : ℕ). n * x) (pow-suc 2 j)) in
      let ih = next_pow2-least fuel (n * 2) bytes j (omega (arith, h, e)) in
      rw (next_pow2, less) (omega (arith, ih, e))
  | inr stop ↦
      rw (next_pow2, stop) (omega (arith, mul-le-mul_left n (pow_le 0 (suc j) (omega arith))))
]

-- 1024 doubled some number of times
abbrev pub IsDoubled : ℕ → Type 0
IsDoubled size = (i : ℕ) × (size ≡ 1024 * 2 ^ i)

-- The size that GPUmalloc serves a request below 64 KB with is the smallest of 1024, 2048, 4096 and
-- so on that is at least the request: it is one of them, it covers the request, and it is at most
-- any other one, 1024 * 2 ^ j, that does.
pub class_size-least :
    (bytes j : ℕ)
    → bytes < 65536
    → bytes ≤ 1024 * 2 ^ j
    → IsDoubled (class_size bytes) × (bytes ≤ class_size bytes) × (class_size bytes ≤ 1024 * 2 ^ j)
unfolding class_size
class_size-least bytes j small h =
    let less : ltb bytes small_limit ≡ true = ground (arith, small) in
    rw less (
      next_pow2-power 6 1024 bytes,
      next_pow2-covers 6 1024 bytes (omega (arith, small)),
      next_pow2-least 6 1024 bytes j h,
    )

-- A slab is a whole number of chunks.
abbrev pub Whole : ℕ → Type 0
Whole bytes = (n : ℕ) × (slab_size bytes ≡ n * class_size bytes) × (0 < n) × (0 < class_size bytes)

small-Whole : (bytes : ℕ) → ltb bytes small_limit ≡ true → Whole bytes
unfolding slab_size class_size
small-Whole bytes small =
    let (i, e) = next_pow2-power 6 1024 bytes in
    let positive = pow_pos i in
    (1024, rw small (thousandfold _ (2 ^ i) e), omega arith, rw small (omega arith))
  where
    thousandfold : (c x : ℕ) → c ≡ 1024 * x → c / 1024 * 1024 * 1024 ≡ 1024 * c
    thousandfold c x h = omega arith

power_whole :
    (bytes k : ℕ) → bytes < 2 ^ 31 → bytes ≡ 2 ^ k → (n : ℕ) × (2 ^ 30 ≡ n * bytes) × (0 < n)
power_whole bytes k h e = elim (Bool-cases (ltb k 31)) [
  | inl less ↦
      let l = ltb→lt k 31 less in
      let q : (30 - k) + k ≡ 30 = omega arith in
      (
        2 ^ (30 - k),
        ap (λ (x : ℕ). 2 ^ x) (sym q)
            ∙ pow_add 2 (30 - k) k
            ∙ ap (λ (x : ℕ). 2 ^ (30 - k) * x) (sym e),
        pow_pos (30 - k),
      )
  | inr more ↦ let l : 31 ≤ k = ground arith in let big = pow_le 31 k l in absurd (omega arith)
]

large-Whole :
    (bytes : ℕ) (cache : Bool)
    → bytes < 2 ^ 31
    → ltb bytes small_limit ≡ false
    → pooled bytes cache ≡ true
    → Whole bytes
unfolding slab_size class_size pooled
large-Whole bytes cache h large p =
    let l : small_limit ≤ bytes = ground arith in
    let bits : (and_bits 32 bytes (bytes - 1) == 0) ≡ true = last _ _ (rw large at p) in
    let (k, e, f) = and_pred-zero 32 bytes (omega arith) (omega arith) ((==_iff _ 0).0 bits) in
    let (n, w, np) = power_whole bytes k h e in (n, rw large w, np, rw large (omega arith))
  where
    last : (a b : Bool) → (a && b) ≡ true → b ≡ true
    last true b h = h
    last false b h = cc

pub slab-Whole :
    (bytes : ℕ) (cache : Bool) → bytes < 2 ^ 31 → pooled bytes cache ≡ true → Whole bytes
slab-Whole bytes cache h p = elim (Bool-cases (ltb bytes small_limit)) [
  | inl small ↦ small-Whole bytes small
  | inr large ↦ large-Whole bytes cache h large p
]
