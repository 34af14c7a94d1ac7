-- ===== src/Ckks/Mult.antt =====
-- src/CKKS/Ciphertext.cpp: mult, multMutable, square and the forms that write a third ciphertext.
-- `mult` calls itself on an adjusted copy of the operand: the model's recursion takes fuel.
-- Relinearization works on the limbs only: what it needs is the evaluation key of the tag, and what
-- it leaves is the flag of the special limbs.
pub mod Factors
pub mod Flexible
pub mod Square
use fideslib.Prelude.{
  ℕ, zero, suc, ◌+◌, Bool, true, false, not, ◌&&◌, ◌||◌, ltb, leb, ◌==◌, if◌then◌else◌,
}
use fideslib.Ckks.Result.{
  Result, ok, err, ◌>>=◌, ◌>>◌, guard, missing_key, out_of_fuel, adjust_failure,
}
use fideslib.Ckks.Context.{Context, Technique, assert, is_fixed_manual, is_fixed_auto, is_auto}
use fideslib.Ckks.Ciphertext
use fideslib.Ckks.Ciphertext.{Ciphertext, towers, fresh, mult_metadata}
use fideslib.Ckks.Scaling.{rescale_internal, drop_towers}
use fideslib.Ckks.Adjust.{adjust_for_add_or_sub}

module _ (cc : Context) where
  abbrev Ct : Type 0
  Ct = Ciphertext cc.Factor

  -- An operand without a tag takes the other's.
  unfoldable pub adopt_key : Ct → Ct → Ct
  adopt_key a b = if a.key_id == 0 then record a { key_id = b.key_id } else a

  -- The assertions on an extended operand; those of the second operand's c1 are not looked at.
  unfoldable pub check_factors : Ct → Ct → Result (Unit {0})
  unfolding towers
  check_factors a b = do
    let extended = a.c0.mod_up || a.c1.mod_up || b.c0.mod_up
    assert cc (not extended || towers a == towers b)
    assert cc (not extended || a.noise_level == b.noise_level)

  -- adjustForAddOrSub on one operand or on a copy of the other, and a rescale of both when the
  -- first has degree 2. The flag tells that the second operand is a copy.
  unfoldable pub align_factors : Ct → Ct → Result (Bool × Ct × Ct)
  align_factors a b = do
    (adjusted, a) ← adjust_for_add_or_sub cc a b
    (copied, c) ← if adjusted then ok (false, b) else (do
      b_owned ← Ciphertext.copy cc (fresh cc) b
      (b_adjusted, b_owned) ← adjust_for_add_or_sub cc b_owned a
      if b_adjusted then ok (true, b_owned) else err adjust_failure)
    if a.noise_level == 2
        then (do
          a ← rescale_internal cc a
          b_owned ← if copied then ok c else Ciphertext.copy cc (fresh cc) b
          b_owned ← rescale_internal cc b_owned
          ok (true, a, b_owned))
        else ok (copied, a, c)

  -- binomialMult, the key switch, and the two additions of its result
  unfoldable pub mult_limbs : Ct → Ct → Bool → Result Ct
  mult_limbs a b moddown = do
    guard (cc.has_eval_key a.key_id) missing_key
    assert cc (not a.c0.mod_up && not a.c1.mod_up && not b.c0.mod_up && not b.c1.mod_up)
    assert cc (leb a.c0.towers a.c1.towers)
    ok (record a {
      c0 = record (a.c0) { mod_up = not moddown };
      c1 = record (a.c1) { mod_up = not moddown };
      scale = cc.mul a.scale b.scale;
    })

  unfoldable pub mult_aligned : Ct → Ct → Bool → Bool → Result Ct
  unfolding towers
  mult_aligned a b rescale moddown = do
    a ←
        if (is_fixed_manual cc.technique || is_fixed_auto cc.technique) && ltb (towers b) (towers a)
        then drop_towers cc (towers b) a
        else ok a
    assert cc (a.noise_level == 1)
    assert cc (a.noise_level == b.noise_level)
    r ← mult_limbs a b moddown
    r ← mult_metadata cc r r b
    if moddown && rescale && is_fixed_manual cc.technique then rescale_internal cc r else ok r

  unfoldable pub mult_fuel : ℕ → Ct → Ct → Bool → Bool → Result Ct
  mult_fuel zero a b rescale moddown = err out_of_fuel
  mult_fuel (suc fuel) a b rescale moddown =
      let again = mult_fuel fuel in
      do
        a ← Ciphertext.ensure_resident cc a
        assert cc (a.key_id == b.key_id)
        if is_auto cc.technique
            then (do
              check_factors (adopt_key a b) b
              (copied, a, c) ← align_factors (adopt_key a b) b
              if copied then again a c rescale moddown else mult_aligned a c rescale moddown)
            else mult_aligned (adopt_key a b) b rescale moddown

  unfoldable pub mult : Ct → Ct → Bool → Bool → Result Ct
  mult = mult_fuel 2

  -- Both operands are adjusted in place, and both are returned.
  unfoldable pub mult_mutable : Ct → Ct → Bool → Bool → Result (Ct × Ct)
  unfolding towers
  mult_mutable a b rescale moddown = do
    assert cc (a.key_id == b.key_id)
    let a = adopt_key a b
    (a, b) ←
        if is_auto cc.technique
        then (do
          check_factors a b
          (adjusted, a) ← adjust_for_add_or_sub cc a b
          (b_adjusted, b) ← if adjusted then ok (true, b) else adjust_for_add_or_sub cc b a
          guard b_adjusted adjust_failure
          if a.noise_level == 2
              then (do a ← rescale_internal cc a; b ← rescale_internal cc b; ok (a, b))
              else ok (a, b))
        else if is_fixed_manual cc.technique && ltb (towers b) (towers a)
        then (drop_towers cc (towers b) a >>= (λ r. ok (r, b)))
        else ok (a, b)
    assert cc (a.noise_level == 1)
    assert cc (a.noise_level == b.noise_level)
    r ← mult a b rescale moddown
    ok (r, b)

  unfoldable pub square : Ct → Bool → Result Ct
  square ct rescale = do
    ct ← Ciphertext.ensure_resident cc ct
    assert cc (not (is_auto cc.technique && (ct.c0.mod_up || ct.c1.mod_up)) || ct.noise_level == 1)
    ct ← if is_auto cc.technique && ct.noise_level == 2 then rescale_internal cc ct else ok ct
    assert cc (ct.noise_level == 1)
    mult ct ct rescale true

  -- mult(b, c) into a ciphertext that is neither: the operand with fewer towers is copied.
  unfoldable pub mult_into : Ct → Ct → Ct → Bool → Result Ct
  unfolding towers
  mult_into dest b c rescale =
      if leb (towers b) (towers c)
      then (do dest ← Ciphertext.copy cc dest b; mult dest c rescale true)
      else (do dest ← Ciphertext.copy cc dest c; mult dest b rescale true)

  -- square(src) from another ciphertext
  unfoldable pub square_into : Ct → Ct → Bool → Result Ct
  square_into dest src rescale = do dest ← Ciphertext.copy cc dest src; square dest rescale
