-- ===== src/Ckks/PlainOps/Flexible.antt =====
-- addPt and multPt under the flexible techniques.
use fideslib.Prelude.{
  ℕ, zero, suc, ◌≤◌, max, ◌≡◌, refl, Bool, true, ◌&&◌, inl, inr, arith, ◌==◌, Bool-cases, ==_refl,
  if◌then◌else◌, ◌∙◌, false,
}
use fideslib.Ckks.Result.{ok}
use fideslib.Ckks.Context.{Context, IsExact, is_flexible}
use fideslib.Ckks.Context.Laws.{big-reduce}
use fideslib.Ckks.Poly
use fideslib.Ckks.Ciphertext.{towers, ensure_resident}
use fideslib.Ckks.Adjust.Align.{rescale_to}
use fideslib.Ckks.Adjust.Flexible.{
  IsDegree, one, two, canon, technique_lem, adjust_scale_and_level-aligns,
}
use fideslib.Ckks.AddSub.Flexible.{comes_down, comes_down_refl, comes_down_sym}
use fideslib.Ckks.Plaintext.{blank, adjust_plaintext_to_ciphertext, adjust_in_place}
use fideslib.Ckks.Plaintext
use fideslib.Ckks.Plaintext.Flexible.{plain, adjust_plaintext-aligns}
use fideslib.Ckks.PlainOps.{
  add_pt_metadata, adjust_ciphertext_to_plaintext, check_plain, approach, add_pt_aligned,
  add_pt_fuel, add_pt,
}

module _ (cc : Context) (e : IsExact cc) (flexible : is_flexible cc.technique ≡ true) where
  poly_copy_lem :
      (t : ℕ)
      → Poly.copy (record { towers = t; mod_up = false }) Poly.empty
        ≡ record { towers = t; mod_up = false }
  unfolding Poly.copy Poly.grow Poly.drop_to_level
  poly_copy_lem t = ground arith

  poly_add_lem :
      (t : ℕ)
      → Poly.add cc (record { towers = t; mod_up = false }) (record { towers = t; mod_up = false })
        ≡ ok (record { towers = t; mod_up = false })
  unfolding Poly.add
  poly_add_lem t = ground arith

  no_approach : (b c : Bool) → (b && false && c) ≡ false
  no_approach true c = refl
  no_approach false c = refl

  no_rescale : (b : Bool) → (b && false) ≡ false
  no_rescale true = refl
  no_rescale false = refl

  module _ (key s1 s2 : ℕ) where
    pub adjust_plain_lem :
        (t1 t2 : ℕ) {d1 d2 : ℕ}
        → IsDegree d1
        → IsDegree d2
        → d1 ≤ t1
        → d2 ≤ t2
        → t1 ≤ cc.top
        → comes_down t1 d1 t2 d2 ≡ true
        → adjust_ciphertext_to_plaintext cc (canon cc key s1 t1 d1) (plain cc s2 t2 d2)
          ≡ ok (true, canon cc key s1 t2 d2)
    unfolding adjust_ciphertext_to_plaintext
    adjust_plain_lem t1 t2 a b g1 g2 k down = rw (
      (technique_lem cc.technique flexible).1,
      flexible,
      adjust_scale_and_level-aligns cc e key s1 t1 t2 flexible a b g1 g2 k,
      down,
    )

    add_aligned_lem :
        (t d : ℕ)
        → add_pt_aligned cc (canon cc key s1 t d) (plain cc s2 t d)
          ≡ ok (canon cc key (max s1 s2) t d)
    unfolding add_pt_aligned add_pt_metadata towers
    add_aligned_lem t d = rw (==_refl d, poly_add_lem t, flexible, ==_refl t)

    -- What `approach` leaves still comes down to the plaintext.
    approach_lem :
        (t1 t2 : ℕ) {d1 d2 : ℕ}
        → IsDegree d1
        → IsDegree d2
        → d1 ≤ t1
        → t1 ≤ cc.top
        → comes_down t1 d1 t2 d2 ≡ true
        → (t d : ℕ) × (approach cc (canon cc key s1 t1 d1) (plain cc s2 t2 d2)
            ≡ ok (canon cc key s1 t d))
          × IsDegree d
          × (d ≤ t)
          × (t ≤ cc.top)
          × (comes_down t d t2 d2 ≡ true)
    unfolding approach towers
    approach_lem t1 t2 {d2 = d2} one b g k down =
        (t1, 1, rw (no_approach (d2 == 1) (suc t2 == t1)), one, g, k, down)
    approach_lem t1 t2 two two g k down = (t1, 2, refl, two, g, k, down)
    approach_lem zero t2 two one g k down = ground arith
    approach_lem (suc t1) t2 two one g k down = elim (Bool-cases (suc t2 == suc t1)) [
      | inr far ↦ (suc t1, 2, rw far, two, g, k, down)
      | inl near ↦ (
        t1,
        1,
        rw near (
            rescale_to cc e key s1 t1 1 (cc.big (suc t1)) (cc.big (suc t1)) (cc.real t1) k
              (big-reduce cc e t1) (big-reduce cc e t1)),
        one,
        omega (arith, g),
        omega (arith, k),
        ground (arith, near),
      )
    ]

    -- The ciphertext comes down to the plaintext.
    add_pt_down :
        (n t1 t2 : ℕ) {d1 d2 : ℕ}
        → IsDegree d1
        → IsDegree d2
        → d1 ≤ t1
        → d2 ≤ t2
        → t1 ≤ cc.top
        → comes_down t1 d1 t2 d2 ≡ true
        → add_pt_fuel cc (suc n) (canon cc key s1 t1 d1) (plain cc s2 t2 d2)
          ≡ ok (canon cc key (max s1 s2) t2 d2)
    unfolding add_pt_fuel check_plain ensure_resident
    add_pt_down n t1 t2 {d1} {d2} a b g1 g2 k down =
        let near = approach_lem t1 t2 a b g1 k down in
        rw (
          (technique_lem cc.technique flexible).1,
          flexible,
          near.2,
          adjust_plain_lem near.0 t2 near.3 b near.4 g2 near.5 near.6,
          add_aligned_lem t2 d2,
        )

    -- A ciphertext that does not come down is not approached.
    keep_lem :
        (t1 t2 d1 d2 : ℕ)
        → comes_down t1 d1 t2 d2 ≡ false
        → approach cc (canon cc key s1 t1 d1) (plain cc s2 t2 d2) ≡ ok (canon cc key s1 t1 d1)
    unfolding approach towers
    keep_lem t1 t2 d1 d2 up =
        let far : (d2 == 1 && d1 == 2 && suc t2 == t1) ≡ false = ground (arith, up) in rw far

    pub stay_lem :
        (t1 t2 : ℕ) {d1 d2 : ℕ}
        → IsDegree d1
        → IsDegree d2
        → d1 ≤ t1
        → d2 ≤ t2
        → t1 ≤ cc.top
        → comes_down t1 d1 t2 d2 ≡ false
        → adjust_ciphertext_to_plaintext cc (canon cc key s1 t1 d1) (plain cc s2 t2 d2)
          ≡ ok (false, canon cc key s1 t1 d1)
    unfolding adjust_ciphertext_to_plaintext
    stay_lem t1 t2 a b g1 g2 k up = rw (
      (technique_lem cc.technique flexible).1,
      flexible,
      adjust_scale_and_level-aligns cc e key s1 t1 t2 flexible a b g1 g2 k,
      up,
    )

    -- The copy of the plaintext that comes down to the ciphertext.
    pub lower_lem :
        (t1 t2 : ℕ) {d1 d2 : ℕ}
        → IsDegree d1
        → IsDegree d2
        → d1 ≤ t1
        → d2 ≤ t2
        → comes_down t2 d2 t1 d1 ≡ true
        → adjust_plaintext_to_ciphertext cc (blank cc) (plain cc s2 t2 d2) (canon cc key s1 t1 d1)
          ≡ ok (true, plain cc s2 t1 d1)
    unfolding adjust_plaintext_to_ciphertext adjust_in_place Plaintext.copy Plaintext.copy_metadata
        towers
    lower_lem t1 t2 a b g1 g2 down = rw (
      (technique_lem cc.technique flexible).1,
      flexible,
      poly_copy_lem t2,
      ==_refl t2,
      adjust_plaintext-aligns cc e s2 t2 t1 flexible b a g2 g1 down,
    )

    add_pt_up :
        (n t1 t2 : ℕ) {d1 d2 : ℕ}
        → IsDegree d1
        → IsDegree d2
        → d1 ≤ t1
        → d2 ≤ t2
        → t1 ≤ cc.top
        → comes_down t1 d1 t2 d2 ≡ false
        → add_pt_fuel cc (suc n) (canon cc key s1 t1 d1) (plain cc s2 t2 d2)
          ≡ add_pt_fuel cc n (canon cc key s1 t1 d1) (plain cc s2 t1 d1)
    unfolding add_pt_fuel check_plain ensure_resident
    add_pt_up n t1 t2 {d1} {d2} a b g1 g2 k up = rw (
      (technique_lem cc.technique flexible).1,
      flexible,
      keep_lem t1 t2 d1 d2 up,
      stay_lem t1 t2 a b g1 g2 k up,
      lower_lem t1 t2 a b g1 g2 (comes_down_sym t1 d1 t2 d2 up),
    )

    -- Ciphertext::addPt under FLEXIBLEAUTO and FLEXIBLEAUTOEXT, with exact scaling factors, on a
    -- ciphertext and a plaintext of degree 1 or 2, each with the factor of the tables and at least
    -- as many towers as its degree, the ciphertext not above the top level: the call returns, its
    -- recursion ends after at most one step, and no assertion fails. The result has the lower of
    -- the two levels, the degree of the operand that has that level (the higher degree where the
    -- levels agree), the tables' factor for both, limbs at that factor, and the larger of the two
    -- numbers of slots.
    pub add_pt-aligns :
        (t1 t2 : ℕ) {d1 d2 : ℕ}
        → IsDegree d1
        → IsDegree d2
        → d1 ≤ t1
        → d2 ≤ t2
        → t1 ≤ cc.top
        → add_pt cc (canon cc key s1 t1 d1) (plain cc s2 t2 d2)
          ≡ ok (
              if comes_down t1 d1 t2 d2
              then canon cc key (max s1 s2) t2 d2
              else canon cc key (max s1 s2) t1 d1)
    unfolding add_pt
    add_pt-aligns t1 t2 {d1} {d2} a b g1 g2 k = elim (Bool-cases (comes_down t1 d1 t2 d2)) [
      | inl down ↦ add_pt_down 1 t1 t2 a b g1 g2 k down ∙ rw down
      | inr up ↦
          add_pt_up 1 t1 t2 a b g1 g2 k up
          ∙ add_pt_down 0 t1 t1 a a g1 g1 k (comes_down_refl t1 d1)
          ∙ rw up
    ]
