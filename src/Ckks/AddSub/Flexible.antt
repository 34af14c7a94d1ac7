-- ===== src/Ckks/AddSub/Flexible.antt =====
-- add and sub under the flexible techniques, from the alignment of the operands to the result.
use fideslib.Prelude.{
  ℕ, suc, ◌≤◌, max, ◌≡◌, ◌∙◌, Bool, true, false, ◌&&◌, ◌||◌, inl, inr, arith, ltb, leb, ◌==◌,
  if◌then◌else◌, Bool-cases, ==_refl,
}
use fideslib.Ckks.Result.{ok}
use fideslib.Ckks.Context.{Context, IsExact, is_flexible}
use fideslib.Ckks.Poly
use fideslib.Ckks.Ciphertext.{towers, fresh, copy, ensure_resident, add_metadata, copy_metadata}
use fideslib.Ckks.Adjust.{adjust_for_add_or_sub}
use fideslib.Ckks.Adjust.Flexible.{IsDegree, canon, technique_lem, adjust_scale_and_level-aligns}
use fideslib.Ckks.AddSub.{
  check_extended, add_level, add_limbs, add_adjusted, add_fuel, add, sub_level, sub_limbs,
  sub_adjusted, sub_fuel, sub,
}

-- Does the first operand come down to the second?
abbrev pub comes_down : ℕ → ℕ → ℕ → ℕ → Bool
comes_down t1 d1 t2 d2 = ltb t2 t1 || (t1 == t2 && leb d1 d2)

pub comes_down_sym :
    (t1 d1 t2 d2 : ℕ) → comes_down t1 d1 t2 d2 ≡ false → comes_down t2 d2 t1 d1 ≡ true
comes_down_sym t1 d1 t2 d2 h = ground arith

pub comes_down_refl : (t d : ℕ) → comes_down t d t d ≡ true
comes_down_refl t d = ground arith

module _ (cc : Context) (e : IsExact cc) (flexible : is_flexible cc.technique ≡ true) where
  abbrev polynomial : ℕ → Poly.Poly
  polynomial t = record { towers = t; mod_up = false }

  poly_copy_lem : (t : ℕ) → Poly.copy (polynomial t) Poly.empty ≡ polynomial t
  unfolding Poly.copy Poly.grow Poly.drop_to_level
  poly_copy_lem t = ground arith

  poly_add_lem : (t : ℕ) → Poly.add cc (polynomial t) (polynomial t) ≡ ok (polynomial t)
  unfolding Poly.add
  poly_add_lem t = ground arith

  poly_sub_lem : (t : ℕ) → Poly.sub cc (polynomial t) (polynomial t) ≡ ok (polynomial t)
  unfolding Poly.sub
  poly_sub_lem t = ground arith

  module _ (key s1 s2 : ℕ) where
    pub adjust_lem :
        (t1 t2 : ℕ) {d1 d2 : ℕ}
        → IsDegree d1
        → IsDegree d2
        → d1 ≤ t1
        → d2 ≤ t2
        → t1 ≤ cc.top
        → adjust_for_add_or_sub cc (canon cc key s1 t1 d1) (canon cc key s2 t2 d2)
          ≡ ok (
              if comes_down t1 d1 t2 d2
              then (true, canon cc key s1 t2 d2)
              else (false, canon cc key s1 t1 d1))
    unfolding adjust_for_add_or_sub
    adjust_lem t1 t2 a b g1 g2 k = rw (
      (technique_lem cc.technique flexible).0,
      (technique_lem cc.technique flexible).1,
      flexible,
      adjust_scale_and_level-aligns cc e key s1 t1 t2 flexible a b g1 g2 k,
    )

    pub copy_lem : (t d : ℕ) → copy cc (fresh cc) (canon cc key s1 t d) ≡ ok (canon cc key s1 t d)
    unfolding copy copy_metadata towers
    copy_lem t d = rw (poly_copy_lem t, ==_refl t)

    add_adjusted_lem :
        (t d : ℕ)
        → add_adjusted cc (canon cc key s1 t d) (canon cc key s2 t d)
          ≡ ok (canon cc key (max s1 s2) t d)
    unfolding add_adjusted add_level add_limbs add_metadata towers
    add_adjusted_lem t d =
        rw (flexible, ==_refl t, poly_add_lem t, ==_refl t, ==_refl key, ==_refl d)

    sub_adjusted_lem :
        (t d : ℕ)
        → sub_adjusted cc (canon cc key s1 t d) (canon cc key s2 t d)
          ≡ ok (canon cc key (max s1 s2) t d)
    unfolding sub_adjusted sub_level sub_limbs add_metadata towers
    sub_adjusted_lem t d =
        rw (flexible, ==_refl t, poly_sub_lem t, ==_refl t, ==_refl key, ==_refl d)

    add_down :
        (n t1 t2 : ℕ) {d1 d2 : ℕ}
        → IsDegree d1
        → IsDegree d2
        → d1 ≤ t1
        → d2 ≤ t2
        → t1 ≤ cc.top
        → comes_down t1 d1 t2 d2 ≡ true
        → add_fuel cc (suc n) (canon cc key s1 t1 d1) (canon cc key s2 t2 d2)
          ≡ ok (canon cc key (max s1 s2) t2 d2)
    unfolding add_fuel check_extended ensure_resident
    add_down n t1 t2 {d1} {d2} a b g1 g2 k down = rw (
      (technique_lem cc.technique flexible).1,
      flexible,
      ==_refl key,
      adjust_lem t1 t2 a b g1 g2 k,
      down,
      add_adjusted_lem t2 d2,
    )

    sub_down :
        (n t1 t2 : ℕ) {d1 d2 : ℕ}
        → IsDegree d1
        → IsDegree d2
        → d1 ≤ t1
        → d2 ≤ t2
        → t1 ≤ cc.top
        → comes_down t1 d1 t2 d2 ≡ true
        → sub_fuel cc (suc n) (canon cc key s1 t1 d1) (canon cc key s2 t2 d2)
          ≡ ok (canon cc key (max s1 s2) t2 d2)
    unfolding sub_fuel check_extended ensure_resident
    sub_down n t1 t2 {d1} {d2} a b g1 g2 k down = rw (
      (technique_lem cc.technique flexible).1,
      flexible,
      ==_refl key,
      adjust_lem t1 t2 a b g1 g2 k,
      down,
      sub_adjusted_lem t2 d2,
    )

  -- The second operand comes down to the first, and the call repeats on the copy.
  add_up :
      (key s1 s2 n t1 t2 : ℕ) {d1 d2 : ℕ}
      → IsDegree d1
      → IsDegree d2
      → d1 ≤ t1
      → d2 ≤ t2
      → t1 ≤ cc.top
      → t2 ≤ cc.top
      → comes_down t1 d1 t2 d2 ≡ false
      → add_fuel cc (suc n) (canon cc key s1 t1 d1) (canon cc key s2 t2 d2)
        ≡ add_fuel cc n (canon cc key s1 t1 d1) (canon cc key s2 t1 d1)
  unfolding add_fuel check_extended ensure_resident
  add_up key s1 s2 n t1 t2 {d1} {d2} a b g1 g2 k1 k2 up = rw (
    (technique_lem cc.technique flexible).1,
    flexible,
    ==_refl key,
    adjust_lem key s1 s2 t1 t2 a b g1 g2 k1,
    up,
    copy_lem key s2 s1 t2 d2,
    adjust_lem key s2 s1 t2 t1 b a g2 g1 k2,
    comes_down_sym t1 d1 t2 d2 up,
  )

  -- Ciphertext::add under FLEXIBLEAUTO and FLEXIBLEAUTOEXT, with exact scaling factors, on two
  -- ciphertexts of the same key, each of degree 1 or 2, with at least as many towers as its degree
  -- and the factor of the tables, and neither above the top level: the call returns, its recursion
  -- ends after at most one step, and no assertion fails. The result has the lower of the two
  -- levels, the degree of the operand that has that level (the higher degree where the levels
  -- agree), the tables' factor for both, limbs at that factor, and the larger of the two numbers of
  -- slots.
  pub add-aligns :
      (key s1 s2 t1 t2 : ℕ) {d1 d2 : ℕ}
      → IsDegree d1
      → IsDegree d2
      → d1 ≤ t1
      → d2 ≤ t2
      → t1 ≤ cc.top
      → t2 ≤ cc.top
      → add cc (canon cc key s1 t1 d1) (canon cc key s2 t2 d2)
        ≡ ok (
            if comes_down t1 d1 t2 d2
            then canon cc key (max s1 s2) t2 d2
            else canon cc key (max s1 s2) t1 d1)
  unfolding add
  add-aligns key s1 s2 t1 t2 {d1} {d2} a b g1 g2 k1 k2 =
      elim (Bool-cases (comes_down t1 d1 t2 d2)) [
        | inl down ↦ add_down key s1 s2 1 t1 t2 a b g1 g2 k1 down ∙ rw down
        | inr up ↦
            add_up key s1 s2 1 t1 t2 a b g1 g2 k1 k2 up
            ∙ add_down key s1 s2 0 t1 t1 a a g1 g1 k1 (comes_down_refl t1 d1)
            ∙ rw up
      ]

  -- The second operand comes down to the first, and the call repeats on the copy.
  sub_up :
      (key s1 s2 n t1 t2 : ℕ) {d1 d2 : ℕ}
      → IsDegree d1
      → IsDegree d2
      → d1 ≤ t1
      → d2 ≤ t2
      → t1 ≤ cc.top
      → t2 ≤ cc.top
      → comes_down t1 d1 t2 d2 ≡ false
      → sub_fuel cc (suc n) (canon cc key s1 t1 d1) (canon cc key s2 t2 d2)
        ≡ sub_fuel cc n (canon cc key s1 t1 d1) (canon cc key s2 t1 d1)
  unfolding sub_fuel check_extended ensure_resident
  sub_up key s1 s2 n t1 t2 {d1} {d2} a b g1 g2 k1 k2 up = rw (
    (technique_lem cc.technique flexible).1,
    flexible,
    ==_refl key,
    adjust_lem key s1 s2 t1 t2 a b g1 g2 k1,
    up,
    copy_lem key s2 s1 t2 d2,
    adjust_lem key s2 s1 t2 t1 b a g2 g1 k2,
    comes_down_sym t1 d1 t2 d2 up,
  )

  -- Ciphertext::sub under FLEXIBLEAUTO and FLEXIBLEAUTOEXT, with exact scaling factors, on two
  -- ciphertexts of the same key, each of degree 1 or 2, with at least as many towers as its degree
  -- and the factor of the tables, and neither above the top level: the call returns, its recursion
  -- ends after at most one step, and no assertion fails. The result has the lower of the two
  -- levels, the degree of the operand that has that level (the higher degree where the levels
  -- agree), the tables' factor for both, limbs at that factor, and the larger of the two numbers of
  -- slots.
  pub sub-aligns :
      (key s1 s2 t1 t2 : ℕ) {d1 d2 : ℕ}
      → IsDegree d1
      → IsDegree d2
      → d1 ≤ t1
      → d2 ≤ t2
      → t1 ≤ cc.top
      → t2 ≤ cc.top
      → sub cc (canon cc key s1 t1 d1) (canon cc key s2 t2 d2)
        ≡ ok (
            if comes_down t1 d1 t2 d2
            then canon cc key (max s1 s2) t2 d2
            else canon cc key (max s1 s2) t1 d1)
  unfolding sub
  sub-aligns key s1 s2 t1 t2 {d1} {d2} a b g1 g2 k1 k2 =
      elim (Bool-cases (comes_down t1 d1 t2 d2)) [
        | inl down ↦ sub_down key s1 s2 1 t1 t2 a b g1 g2 k1 down ∙ rw down
        | inr up ↦
            sub_up key s1 s2 1 t1 t2 a b g1 g2 k1 k2 up
            ∙ sub_down key s1 s2 0 t1 t1 a a g1 g1 k1 (comes_down_refl t1 d1)
            ∙ rw up
      ]
