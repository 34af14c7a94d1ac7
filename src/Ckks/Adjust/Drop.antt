-- ===== src/Ckks/Adjust/Drop.antt =====
-- Ciphertext::dropToLevel under the flexible techniques.
use fideslib.Prelude.{
  ℕ, ◌≤◌, ◌≡◌, refl, inl, inr, Bool, true, false, ◌||◌, arith, ltb, ◌==◌, if◌then◌else◌, Bool-cases,
}
use fideslib.Ckks.Result.{ok}
use fideslib.Ckks.Context.{Context, IsExact, is_flexible}
use fideslib.Ckks.Ciphertext.{ensure_resident}
use fideslib.Ckks.Scaling.{table_factor, drop_towers}
use fideslib.Ckks.Scaling.Steps.{shape, drop_shape}
use fideslib.Ckks.Adjust.{drop_to_level}
use fideslib.Ckks.Adjust.Flexible.{IsDegree, one, two, canon, adjust_scale_and_level-aligns}

module _ (cc : Context) (e : IsExact cc) (key slots : ℕ) where
  degree_lem : {d : ℕ} → IsDegree d → (d == 1 || d == 2) ≡ true
  degree_lem one = refl
  degree_lem two = refl

  stay_lem :
      (t2 t1 d : ℕ)
      → ltb t2 t1 ≡ false
      → drop_towers cc t2 (canon cc key slots t1 d) ≡ ok (canon cc key slots t1 d)
  unfolding drop_towers ensure_resident
  stay_lem t2 t1 d h = rw h

  -- Ciphertext::dropToLevel under FLEXIBLEAUTO and FLEXIBLEAUTOEXT, with exact scaling factors, on
  -- a ciphertext of degree 1 or 2 with the factor of the tables, to a level with at least as many
  -- towers as the degree: the call returns without a failed assertion. Above the level, the towers
  -- are dropped; the degree stays, and the factor and the limbs become those of the tables at the
  -- new level, or stay as they are if skip_adjust is set. At the level or below, nothing changes.
  pub drop_to_level-aligns :
      (t1 t2 : ℕ) {d : ℕ} (skip_adjust : Bool)
      → is_flexible cc.technique ≡ true
      → IsDegree d
      → d ≤ t1
      → d ≤ t2
      → t1 ≤ cc.top
      → drop_to_level cc t2 (canon cc key slots t1 d) skip_adjust
        ≡ ok (
            if ltb t2 t1
            then if skip_adjust
              then shape cc key slots t2 d (table_factor cc t1 d) (table_factor cc t1 d)
              else canon cc key slots t2 d
            else canon cc key slots t1 d)
  unfolding drop_to_level ensure_resident
  drop_to_level-aligns t1 t2 {d} skip_adjust h a g1 g2 k = elim (Bool-cases (ltb t2 t1)) [
    | inr less ↦ rw (less, stay_lem t2 t1 d less)
    | inl more ↦ elim (Bool-cases skip_adjust) [
      | inl skip ↦ rw (
        more,
        skip,
        drop_shape cc key slots t2 t1 d (table_factor cc t1 d) (table_factor cc t1 d)
            (ground (arith, more)),
      )
      | inr adjust ↦ rw (
        more,
        adjust,
        h,
        degree_lem a,
        adjust_scale_and_level-aligns cc e key slots t1 t2 h a a g1 g2 k,
        more,
      )
    ]
  ]
