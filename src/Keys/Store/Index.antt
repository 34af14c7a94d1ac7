-- ===== src/Keys/Store/Index.antt =====
-- The index that serves a rotation: actual_index, the loop of GetRotationKey(index, keyID, slots).
use fideslib.Prelude.{
  ℕ, zero, suc, ◌+◌, ◌-◌, ◌*◌, ◌/◌, ◌%◌, ◌≤◌, ◌<◌, ◌≡◌, refl, sym, ap, ◌∙◌, inl, inr, true, false,
  some, ltb, ◌==◌, arith, Bool-cases,
}
use native.Mathlib.Nat.{
  mod-lt, div-add-mod', mul_assoc, mul_comm, mod-eq_of_lt, mul-div_cancel_left, mul-pos,
  mul-lt-mul_of_pos_left,
}
use fideslib.Prelude.Mod.{mod_eq_of_add_mul}
use fideslib.Prelude.Int.{ℤ, pos, negsuc}
use fideslib.Ckks.Result.{ok}
use fideslib.Keys.Cache.{KeySet}
use fideslib.Keys.Store.{has_key, reduced, alternative, actual_index}

reduced_lt : (half : ℕ) (index : ℤ) → 0 < half → reduced half index < half
unfolding reduced
reduced_lt half (pos n) h = mod-lt n h
reduced_lt half (negsuc n) h = let l = mod-lt (suc n) h in ground (arith, l)

-- Adding a multiple of the slots, modulo a multiple of the slots, keeps the index modulo the slots.
same_class : (a n s m : ℕ) → 0 < s → 0 < m → ((a + n * s) % (s * m)) % s ≡ a % s
same_class a n s m h k =
    let x = a + n * s in
    sym (
      mod_eq_of_add_mul (x % (s * m)) (x / (s * m) * m) s (
        omega (
          arith,
          div-add-mod' x (s * m),
          mul_assoc (x / (s * m)) m s,
          ap (λ (t : ℕ). x / (s * m) * t) (mul_comm m s),
        )))
    ∙ mod_eq_of_add_mul a n s refl

alternative_lem :
    (count i n index slots half m : ℕ) (ks : KeySet)
    → half ≡ slots * m
    → 0 < slots
    → 0 < m
    → i ≤ n
    → n < i + count
    → has_key ((index + n * slots) % half) ks ≡ true
    → (j : ℕ) × (alternative count i index slots half ks ≡ some j)
      × (has_key j ks ≡ true)
      × (j % slots ≡ index % slots)
unfolding alternative
alternative_lem zero i n index slots half m ks e p q h k there = ground arith
alternative_lem (suc count) i n index slots half m ks e p q h k there =
    elim (Bool-cases (has_key ((index + i * slots) % half) ks)) [
      | inl here ↦
          ((index + i * slots) % half, rw here, here, rw e (same_class index i slots m p q))
      | inr miss ↦ elim (Bool-cases (i == n)) [
        | inl eq ↦
            let same : i ≡ n = ground arith in
            let found : has_key ((index + i * slots) % half) ks ≡ true = rw same there in
            ground (arith, found, miss)
        | inr ne ↦
            let rest =
              alternative_lem count (suc i) n index slots half m ks e p q (ground (arith, h, ne))
                (omega (arith, k)) there in
            (rest.0, rw miss rest.1, rest.2, rest.3)
      ]
    ]

-- The requested index itself is the one with n = 0.
positive :
    (index : ℤ) (slots m n : ℕ) (ks : KeySet)
    → 0 < slots
    → 0 < m
    → has_key ((reduced (slots * m) index + n * slots) % (slots * m)) ks ≡ true
    → has_key (reduced (slots * m) index) ks ≡ false
    → 1 ≤ n
positive index slots m (suc n) ks p q there miss = omega arith
positive index slots m zero ks p q there miss =
    let lt : reduced (slots * m) index < slots * m = reduced_lt (slots * m) index (mul-pos p q) in
    let e : (reduced (slots * m) index + 0 * slots) % (slots * m) ≡ reduced (slots * m) index =
      ap (λ (x : ℕ). x % (slots * m)) (omega arith) ∙ mod-eq_of_lt lt in
    let here : has_key (reduced (slots * m) index) ks ≡ true = rw (← e) there in
    ground (arith, here, miss)

-- GetRotationKey(index, keyID, slots), for an index that is not the conjugation's, where the number
-- of slots divides N / 2: if a key is there for one of the indexes that agree with the requested one
-- modulo the slots, the index that it picks has a key, and agrees with the requested one modulo the
-- slots.
pub actual_index-serves :
    (index : ℤ) (slots m n : ℕ) (ks : KeySet)
    → 0 < slots
    → 0 < m
    → n < m
    → has_key ((reduced (slots * m) index + n * slots) % (slots * m)) ks ≡ true
    → (j : ℕ) × (actual_index index (some slots) (slots * m) ks ≡ ok j)
      × (has_key j ks ≡ true)
      × (j % slots ≡ reduced (slots * m) index % slots)
unfolding actual_index
actual_index-serves index slots m n ks p q h there =
    let i = reduced (slots * m) index in
    elim (Bool-cases (has_key i ks)) [
      | inl here ↦ (i, rw here, here, refl)
      | inr miss ↦
          let alt =
            alternative_lem (m - 1) 1 n i slots (slots * m) m ks refl p q
              (positive index slots m n ks p q there miss) (omega (arith, h)) there in
          let two : 1 < m = omega (arith, h, positive index slots m n ks p q there miss) in
          let lt : slots * 1 < slots * m = mul-lt-mul_of_pos_left two p in
          let more : (slots == slots * m) ≡ false = ground (arith, lt) in
          let quotient : slots * m / slots ≡ m = mul-div_cancel_left m p in
          let some_slots : ltb 0 slots ≡ true = ground (arith, p) in
          (alt.0, rw (actual_index, miss, more, some_slots, quotient, alt.1), alt.2, alt.3)
    ]
