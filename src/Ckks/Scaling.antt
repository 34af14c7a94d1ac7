-- ===== src/Ckks/Scaling.antt =====
-- src/CKKS/Ciphertext.cpp: rescaling, multiplication by a scalar, dropping towers, raising the
-- degree. A number that the source lets fall below 0 is the error `out_of_range`; so is a table read
-- at level -1.
pub mod Steps
pub mod Flag
use fideslib.Prelude.{
  ℕ, zero, suc, ◌+◌, ◌-◌, ◌≡◌, Bool, true, false, not, ◌&&◌, ◌||◌, Option, some, none, ltb, leb,
  ◌==◌, if◌then◌else◌,
}
use fideslib.Ckks.Result.{Result, ok, err, ◌>>=◌, ◌>>◌, guard, out_of_range}
use fideslib.Ckks.Context.{
  Context, assert, is_fixed_manual, is_fixed_auto, is_flexible, is_auto, is_ext,
}
use fideslib.Ckks.Poly
use fideslib.Ckks.Ciphertext
use fideslib.Ckks.Ciphertext.{Ciphertext, towers, ensure_resident}

-- The factor that the tables give for a level and a degree of at most 2
abbrev pub table_factor : (cc : Context) → ℕ → ℕ → cc.Factor
table_factor cc t degree = if degree == 1 then cc.real t else cc.big t

module _ (cc : Context) where
  abbrev Ct : Type 0
  Ct = Ciphertext cc.Factor

  -- (getLevel() == cc.L + 1) ? specialPrime[0].p : ModReduceFactor.at(c0.getLevel())
  unfoldable pub reduce_factor : Ct → Result cc.Factor
  unfolding towers
  reduce_factor ct =
      if towers ct == suc cc.top
      then ok cc.special
      else guard (ltb 0 ct.c0.towers) out_of_range >> ok (cc.mod_reduce ct.c0.towers)

  unfoldable pub rescale_internal : Ct → Result Ct
  unfolding ensure_resident towers reduce_factor
  rescale_internal ct = do
    ct ← ensure_resident cc ct
    q ← reduce_factor ct
    guard (ltb 0 ct.noise_level) out_of_range
    let r = record ct {
      c0 = Poly.rescale_double cc ct.c0;
      c1 = Poly.rescale_double cc ct.c1;
      noise_factor = cc.div ct.noise_factor q;
      noise_level = ct.noise_level - 1;
      scale = cc.div ct.scale q;
    }
    assert cc (cc.eqb r.noise_factor (table_factor cc (towers r) r.noise_level))
    ok r

  unfoldable pub rescale : Ct → Result Ct
  unfolding rescale_internal
  rescale ct = if is_fixed_manual cc.technique then rescale_internal ct else ok ct

  -- ScalingFactorReal.at(c0.getLevel()), and the special prime above the chain
  unfoldable pub level_factor : Ct → cc.Factor
  unfolding towers
  level_factor ct = if towers ct == suc cc.top then cc.special else cc.real ct.c0.towers

  -- The limbs are multiplied by the integer nearest to `c * ScalingFactorReal`.
  unfoldable pub mult_scalar_no_precheck : Ct → cc.Factor → Bool → Result Ct
  unfolding ensure_resident level_factor rescale_internal
  mult_scalar_no_precheck ct c rescale = do
    ct ← ensure_resident cc ct
    let r = record ct {
      noise_level = ct.noise_level + 1;
      noise_factor = cc.mul ct.noise_factor (level_factor ct);
      scale = cc.mul ct.scale (cc.mul c (level_factor ct));
    }
    if rescale && is_fixed_auto cc.technique then rescale_internal r else ok r

  -- The checks before a multiplication of one ciphertext: `multScalar` and `square` share them.
  unfoldable pub to_degree_one : Ct → Result Ct
  unfolding ensure_resident rescale_internal
  to_degree_one ct = do
    ct ← ensure_resident cc ct
    assert cc (not (is_auto cc.technique && (ct.c0.mod_up || ct.c1.mod_up)) || ct.noise_level == 1)
    ct ← if is_auto cc.technique && ct.noise_level == 2 then rescale_internal ct else ok ct
    assert cc (ct.noise_level == 1)
    ok ct

  unfoldable pub mult_scalar : Ct → cc.Factor → Bool → Result Ct
  mult_scalar ct c rescale = do
    ct ← to_degree_one ct
    mult_scalar_no_precheck ct c (rescale && is_fixed_manual cc.technique)

  -- c0.dropToLevel(level), c1.dropToLevel(level): what dropToLevel(level, true) does to a
  -- ciphertext that is above the level
  unfoldable pub drop_towers : ℕ → Ct → Result Ct
  unfolding ensure_resident Poly.drop_to_level
  drop_towers t ct = do
    ct ← ensure_resident cc ct
    let dropped = record ct { c0 = Poly.drop_to_level t ct.c0; c1 = Poly.drop_to_level t ct.c1 }
    if ltb t ct.c0.towers then (assert cc (ltb t ct.c1.towers) >> ok dropped) else ok ct

  -- The limbs are multiplied by the last prime of the target level.
  unfoldable pub raise_degree_to_level : ℕ → Ct → Result Ct
  unfolding towers
  raise_degree_to_level t ct = do
    guard (ltb 0 (towers ct)) out_of_range
    ok (record ct {
      noise_level = ct.noise_level + 1;
      noise_factor = cc.mul ct.noise_factor (cc.real (towers ct));
      scale = cc.mul ct.scale (cc.prime t);
    })
