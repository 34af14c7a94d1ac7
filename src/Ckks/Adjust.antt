-- ===== src/Ckks/Adjust.antt =====
-- src/CKKS/Ciphertext.cpp: adjustScaleAndLevel with its branches, dropToLevel, adjustForAddOrSub,
-- adjustForMult, adjustCiphertextToPlaintext. The answer `false` asks the caller to adjust the
-- other operand.
pub mod Align
pub mod Flexible
pub mod Drop
use fideslib.Prelude.{
  ℕ, zero, suc, ◌+◌, ◌-◌, Bool, true, false, not, ◌&&◌, ◌||◌, ltb, leb, ◌==◌, if◌then◌else◌,
}
use fideslib.Ckks.Result.{Result, ok, err, ◌>>=◌, ◌>>◌, guard, assertion, out_of_range}
use fideslib.Ckks.Context.{
  Context, Technique, assert, is_fixed_manual, is_fixed_auto, is_flexible, is_auto,
}
use fideslib.Ckks.Ciphertext
use fideslib.Ckks.Ciphertext.{Ciphertext, towers}
use fideslib.Ckks.Scaling.{
  table_factor, rescale_internal, mult_scalar_no_precheck, mult_scalar, drop_towers,
  raise_degree_to_level,
}

module _ (cc : Context) where
  abbrev Ct : Type 0
  Ct = Ciphertext cc.Factor

  abbrev quotient3 : cc.Factor → cc.Factor → cc.Factor → cc.Factor
  quotient3 a b c = cc.div (cc.div a b) c

  -- `this` has more towers, and both have degree 2: multiply, rescale, drop.
  unfoldable pub align_2_2 : Ct → ℕ → cc.Factor → Result Ct
  unfolding towers
  align_2_2 ct t2 scaling_factor = do
    let t1 = towers ct
    let scf = cc.real t1
    let q1 = cc.mod_reduce t1
    let factor = cc.div (cc.mul (cc.div scaling_factor ct.noise_factor) q1) scf
    ct ← mult_scalar_no_precheck cc ct factor false
    let expected = cc.mul (cc.big (towers ct - 1)) (cc.mod_reduce (towers ct))
    ct ← rescale_internal cc (record ct { noise_factor = expected })
    ct ← if ltb t2 (towers ct) then drop_towers cc t2 ct else ok ct
    ok (record ct { noise_factor = scaling_factor })

  -- Degree 2 to degree 1: one rescale if one tower is to go, else multiply, rescale, drop, rescale.
  unfoldable pub align_2_1 : Ct → ℕ → cc.Factor → Result Ct
  unfolding towers
  align_2_1 ct t2 scaling_factor = if towers ct - 1 == t2 then rescale_internal cc ct else (do
    let t1 = towers ct
    let scf2 = cc.big (suc t2)
    let factor = cc.div (cc.mul (cc.div scf2 ct.noise_factor) (cc.mod_reduce t1)) (cc.real t1)
    ct ← mult_scalar_no_precheck cc ct factor false
    let expected = cc.mul (cc.big (towers ct - 1)) (cc.mod_reduce t1)
    ct ← rescale_internal cc (record ct { noise_factor = expected })
    ct ← if ltb t2 (towers ct - 1) then drop_towers cc (suc t2) ct else ok ct
    ct ← rescale_internal cc (record ct { noise_factor = cc.big (towers ct) })
    ok (record ct { noise_factor = scaling_factor }))

  -- Degree 1 to degree 2: multiply and drop.
  unfoldable pub align_1_2 : Ct → ℕ → cc.Factor → Result Ct
  unfolding towers
  align_1_2 ct t2 scaling_factor = do
    let scf1 = ct.noise_factor
    let scf = cc.real (towers ct)
    ct ← mult_scalar_no_precheck cc ct (quotient3 scaling_factor scf1 scf) false
    ct ← drop_towers cc t2 ct
    assert cc (cc.close (quotient3 (cc.mul ct.noise_factor scaling_factor) scf1 scf) scaling_factor)
    ok (record ct { noise_factor = scaling_factor })

  -- Degree 1 to degree 1: multiply, drop to one tower more, rescale.
  unfoldable pub align_1_1 : Ct → ℕ → cc.Factor → Result Ct
  unfolding towers
  align_1_1 ct t2 scaling_factor = do
    let t1 = towers ct
    let factor = quotient3 (cc.big (suc t2)) ct.noise_factor (cc.real t1)
    ct ← mult_scalar_no_precheck cc ct factor false
    ct ← if ltb t2 (t1 - 1) then drop_towers cc (suc t2) ct else ok ct
    ct ← rescale_internal cc (record ct { noise_factor = cc.mul ct.noise_factor factor })
    ok (record ct { noise_factor = scaling_factor })

  -- FIXEDMANUAL and FIXEDAUTO at equal degrees: only towers are dropped.
  unfoldable pub adjust_equal_degree : Ct → ℕ → Result (Bool × Ct)
  unfolding towers
  adjust_equal_degree ct t2 =
      if ltb t2 (towers ct)
      then drop_towers cc t2 ct >>= (λ r. ok (true, r))
      else ok (leb t2 (towers ct), ct)

  -- FIXEDAUTO at different degrees
  unfoldable pub adjust_fixed_auto : Ct → ℕ → ℕ → Result (Bool × Ct)
  unfolding towers
  adjust_fixed_auto ct d2 t2 =
      if towers ct == t2
      then if ltb ct.noise_level d2
        then raise_degree_to_level cc t2 ct >>= (λ r. ok (true, r))
        else ok (false, ct)
      else if ltb t2 (towers ct)
      then (do
        ct ← if ct.noise_level == 2 then rescale_internal cc ct else raise_degree_to_level cc t2 ct
        ct ← if ltb t2 (towers ct) then drop_towers cc t2 ct else ok ct
        ok (true, ct))
      else ok (false, ct)

  unfoldable pub align : Ct → ℕ → ℕ → cc.Factor → Result Ct
  align ct d2 t2 factor =
      if ct.noise_level == 2
      then if d2 == 2 then align_2_2 ct t2 factor else align_2_1 ct t2 factor
      else if d2 == 2
      then align_1_2 ct t2 factor
      else align_1_1 ct t2 factor

  unfoldable pub adjust_flexible : Ct → ℕ → ℕ → cc.Factor → Result (Bool × Ct)
  unfolding towers
  adjust_flexible ct d2 t2 factor =
      if ltb t2 (towers ct)
      then (do
        r ← align ct d2 t2 factor
        assert cc (leb 3 d2 || cc.eqb r.noise_factor (table_factor cc t2 r.noise_level))
        ok (true, r))
      else if ltb (towers ct) t2
      then ok (false, ct)
      else if ltb ct.noise_level d2
      then mult_scalar cc ct cc.one false >>= (λ r. ok (true, r))
      else ok (leb ct.noise_level d2, ct)

  -- The two assertions at the entry. The first reads the tables one level below the target.
  unfoldable pub check_target : ℕ → ℕ → cc.Factor → Result (Unit {0})
  check_target d2 t2 factor = do
    guard (not (cc.debug && d2 == 2) || ltb 1 t2) out_of_range
    assert cc (not (d2 == 2) || cc.close (cc.mul (cc.real (t2 - 1)) (cc.mod_reduce t2)) (cc.big t2))
    assert cc (leb 3 d2 || cc.eqb factor (table_factor cc t2 d2))

  unfoldable pub adjust_scale_and_level : Ct → ℕ → ℕ → cc.Factor → Result (Bool × Ct)
  adjust_scale_and_level ct d2 t2 factor =
      check_target d2 t2 factor
      >> (if (is_fixed_manual cc.technique || is_fixed_auto cc.technique) && ct.noise_level == d2
          then adjust_equal_degree ct t2
          else if is_fixed_auto cc.technique
          then adjust_fixed_auto ct d2 t2
          else adjust_flexible ct d2 t2 factor)

  unfoldable pub drop_to_level : ℕ → Ct → Bool → Result Ct
  drop_to_level t ct skip_adjust = do
    ct ← Ciphertext.ensure_resident cc ct
    if ltb t ct.c0.towers && not skip_adjust && is_flexible cc.technique
        then (do
          assert cc (ltb t ct.c1.towers)
          assert cc (ct.noise_level == 1 || ct.noise_level == 2)
          (adjusted, r) ←
              adjust_scale_and_level ct ct.noise_level t (table_factor cc t ct.noise_level)
          assert cc adjusted
          ok r)
        else drop_towers cc t ct

  -- getLevel() - NoiseLevel > b.getLevel() - b.NoiseLevel, on signed numbers
  abbrev deeper : Ct → Ct → Bool
  deeper a b = ltb (towers b + a.noise_level) (towers a + b.noise_level)

  unfoldable pub adjust_fixed_manual : Ct → Ct → Result (Bool × Ct)
  unfolding towers
  adjust_fixed_manual ct b =
      if b.noise_level == 1 && ct.noise_level == 2
      then rescale_internal cc ct >>= (λ r. ok (true, r))
      else if deeper ct b && (b.noise_level == 2 && ct.noise_level == 1)
      then mult_scalar cc ct cc.one false >>= (λ r. ok (true, r))
      else ok (deeper ct b || not (ct.noise_level == 1 && b.noise_level == 2), ct)

  unfoldable pub adjust_for_add_or_sub : Ct → Ct → Result (Bool × Ct)
  unfolding towers
  adjust_for_add_or_sub ct b =
      if is_fixed_manual cc.technique
      then adjust_fixed_manual ct b
      else if is_auto cc.technique
      then adjust_scale_and_level ct b.noise_level (towers b) b.noise_factor
      else assert cc false >> ok (false, ct)

  unfoldable pub adjust_for_mult : Ct → Ct → Result (Bool × Ct)
  adjust_for_mult ct b = do
    (adjusted, ct) ← adjust_for_add_or_sub ct b
    ct ← if ct.noise_level == 2 then rescale_internal cc ct else ok ct
    ok (adjusted && not (b.noise_level == 2), ct)
