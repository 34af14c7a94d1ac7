-- ===== src/Ckks/AddSub.antt =====
-- src/CKKS/Ciphertext.cpp: add, addMutable, sub and the form of add that writes a third
-- ciphertext. `add` and `sub` call themselves on an adjusted copy of the operand: the model's
-- recursion takes fuel, two units.
pub mod Flexible
use fideslib.Prelude.{
  ℕ, zero, suc, ◌+◌, Bool, true, false, not, ◌&&◌, ◌||◌, ltb, leb, ◌==◌, if◌then◌else◌,
}
use fideslib.Ckks.Result.{
  Result, ok, err, ◌>>=◌, ◌>>◌, guard, assertion, out_of_fuel, adjust_failure,
}
use fideslib.Ckks.Context.{
  Context, Technique, assert, is_fixed_manual, is_fixed_auto, is_flexible, is_auto,
}
use fideslib.Ckks.Poly
use fideslib.Ckks.Ciphertext
use fideslib.Ckks.Ciphertext.{Ciphertext, towers, fresh}
use fideslib.Ckks.Scaling.{drop_towers}
use fideslib.Ckks.Adjust.{adjust_for_add_or_sub, drop_to_level}

module _ (cc : Context) where
  abbrev Ct : Type 0
  Ct = Ciphertext cc.Factor

  -- c0.isModUp() || c1.isModUp() || b.c0.isModUp() || b.c1.isModUp()
  abbrev extended : Ct → Ct → Bool
  extended a b = a.c0.mod_up || a.c1.mod_up || b.c0.mod_up || b.c1.mod_up

  -- An extended operand has to match in level and degree already.
  unfoldable pub check_extended : Ct → Ct → Result (Unit {0})
  unfolding towers
  check_extended a b = do
    assert cc (not (extended a b) || towers a == towers b)
    assert cc (not (extended a b) || a.noise_level == b.noise_level)

  -- The end of `add`, on operands that are adjusted: levels, limbs, metadata.
  unfoldable pub add_level : Ct → Ct → Result Ct
  unfolding towers
  add_level a b =
      if is_flexible cc.technique
      then assert cc (towers a == towers b) >> ok a
      else if ltb (towers b) (towers a)
      then (do
        check_extended a b
        assert cc (leb (towers a) (towers b))
        drop_to_level cc (towers b) a false)
      else ok a

  unfoldable pub add_limbs : Ct → Ct → Result Ct
  add_limbs a b = do
    c0 ← Poly.add cc a.c0 b.c0
    c1 ← Poly.add cc a.c1 b.c1
    let r = record a { c0 = c0; c1 = c1 }
    Ciphertext.add_metadata cc r r b

  unfoldable pub add_adjusted : Ct → Ct → Result Ct
  add_adjusted a b = do a ← add_level a b; add_limbs a b

  unfoldable pub add_fuel : ℕ → Ct → Ct → Result Ct
  add_fuel zero a b = err out_of_fuel
  add_fuel (suc fuel) a b =
      let again = add_fuel fuel in
      do
        a ← Ciphertext.ensure_resident cc a
        assert cc (a.key_id == b.key_id)
        if is_auto cc.technique
            then (do
              check_extended a b
              (adjusted, a) ← adjust_for_add_or_sub cc a b
              if adjusted then add_adjusted a b else (do
                b_copy ← Ciphertext.copy cc (fresh cc) b
                (b_adjusted, b_copy) ← adjust_for_add_or_sub cc b_copy a
                if b_adjusted then again a b_copy else err adjust_failure))
            else add_adjusted a b

  unfoldable pub add : Ct → Ct → Result Ct
  add = add_fuel 2

  -- `addMutable` adjusts its operand in place and returns both.
  unfoldable pub add_mutable : Ct → Ct → Result (Ct × Ct)
  add_mutable a b = do
    assert cc (a.key_id == b.key_id)
    if is_auto cc.technique
        then (do
          check_extended a b
          (adjusted, a) ← adjust_for_add_or_sub cc a b
          if adjusted then (do a ← add_level a b; a ← add a b; ok (a, b)) else (do
            (b_adjusted, b) ← adjust_for_add_or_sub cc b a
            if b_adjusted then (do a ← add a b; ok (a, b)) else err adjust_failure))
        else (do a ← add_level a b; a ← add a b; ok (a, b))

  -- `sub` drops the towers without a check and without touching the scaling factor.
  unfoldable pub sub_level : Ct → Ct → Result Ct
  unfolding towers Poly.drop_to_level
  sub_level a b =
      if is_flexible cc.technique
      then assert cc (towers a == towers b) >> ok a
      else if ltb (towers b) (towers a)
      then ok (record a {
        c0 = Poly.drop_to_level (towers b) a.c0;
        c1 = Poly.drop_to_level (towers b) a.c1;
      })
      else ok a

  unfoldable pub sub_limbs : Ct → Ct → Result Ct
  sub_limbs a b = do
    c0 ← Poly.sub cc a.c0 b.c0
    c1 ← Poly.sub cc a.c1 b.c1
    let r = record a { c0 = c0; c1 = c1 }
    Ciphertext.add_metadata cc r r b

  unfoldable pub sub_adjusted : Ct → Ct → Result Ct
  sub_adjusted a b = do a ← sub_level a b; sub_limbs a b

  unfoldable pub sub_fuel : ℕ → Ct → Ct → Result Ct
  sub_fuel zero a b = err out_of_fuel
  sub_fuel (suc fuel) a b =
      let again = sub_fuel fuel in
      do
        a ← Ciphertext.ensure_resident cc a
        assert cc (a.key_id == b.key_id)
        if is_auto cc.technique
            then (do
              check_extended a b
              (adjusted, a) ← adjust_for_add_or_sub cc a b
              if adjusted then sub_adjusted a b else (do
                b_copy ← Ciphertext.copy cc (fresh cc) b
                (b_adjusted, b_copy) ← adjust_for_add_or_sub cc b_copy a
                if b_adjusted then again a b_copy else err adjust_failure))
            else sub_adjusted a b

  unfoldable pub sub : Ct → Ct → Result Ct
  sub = sub_fuel 2

  -- add(b, c) into a ciphertext that is neither: the operand with fewer towers is copied.
  unfoldable pub add_into : Ct → Ct → Ct → Result Ct
  unfolding towers
  add_into dest b c =
      if leb (towers b) (towers c)
      then (do dest ← Ciphertext.copy cc dest b; add dest c)
      else (do dest ← Ciphertext.copy cc dest c; add dest b)
