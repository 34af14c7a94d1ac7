-- ===== src/Ckks/Plaintext.antt =====
-- src/CKKS/Plaintext.cu: the state of a plaintext on the device, its metadata, rescaling, and its
-- alignment with a target level and degree. `scale` is the factor of the encoded message.
pub mod Align
pub mod Flexible
use fideslib.Prelude.{
  ℕ, zero, suc, ◌+◌, ◌-◌, max, min, Bool, true, false, not, ◌&&◌, ◌||◌, ltb, leb, ◌==◌,
  if◌then◌else◌,
}
use fideslib.Ckks.Result.{Result, ok, err, ◌>>=◌, ◌>>◌, guard, out_of_range, out_of_fuel}
use fideslib.Ckks.Context.{Context, assert, is_fixed_manual, is_fixed_auto, is_flexible, is_auto}
use fideslib.Ckks.Poly.{Poly}
use fideslib.Ckks.Poly
use fideslib.Ckks.Ciphertext.{Ciphertext, towers}

pub record Plaintext (F : Type 0) : Type 0 where
  pub c0 : Poly
  pub noise_factor : F
  pub noise_level : ℕ
  pub slots : ℕ
  pub scale : F

module _ (cc : Context) where
  abbrev pub Pt : Type 0
  Pt = Plaintext cc.Factor

  -- Plaintext(cc)
  abbrev pub blank : Pt
  blank = record {
    c0 = Poly.empty;
    noise_factor = cc.zero_factor;
    noise_level = 1;
    slots = 0;
    scale = cc.zero_factor;
  }

  unfoldable pub copy_metadata : Pt → Pt → Result Pt
  copy_metadata pt a = do
    assert cc (pt.c0.towers == a.c0.towers)
    ok (record pt { slots = a.slots; noise_level = a.noise_level; noise_factor = a.noise_factor })

  unfoldable pub mult_metadata : Pt → Pt → Pt → Result Pt
  mult_metadata pt a b = do
    assert cc (pt.c0.towers == a.c0.towers)
    assert cc (not (is_flexible cc.technique) || a.c0.towers == b.c0.towers)
    assert cc (not (is_flexible cc.technique) || cc.eqb a.noise_factor b.noise_factor)
    assert cc (a.noise_level == b.noise_level)
    ok (record pt {
      slots = max a.slots b.slots;
      noise_level = a.noise_level + b.noise_level;
      noise_factor = cc.mul a.noise_factor b.noise_factor;
    })

  unfoldable pub copy : Pt → Pt → Result Pt
  copy pt src = do
    assert cc (pt.slots == 0 || pt.slots == src.slots)
    copy_metadata (record pt { c0 = Poly.copy src.c0 pt.c0; scale = src.scale }) src

  unfoldable pub rescale : Pt → Result Pt
  rescale pt = do
    assert cc (leb 2 pt.noise_level)
    guard (ltb 0 pt.c0.towers) out_of_range
    guard (ltb 0 pt.noise_level) out_of_range
    ok (record pt {
      c0 = record (pt.c0) { towers = pt.c0.towers - 1 };
      noise_factor = cc.div pt.noise_factor (cc.mod_reduce pt.c0.towers);
      noise_level = pt.noise_level - 1;
      scale = cc.div pt.scale (cc.mod_reduce pt.c0.towers);
    })

  -- The level's factor enters, and leaves by the rescale where one is asked for.
  unfoldable pub mult_scalar : Pt → cc.Factor → Bool → Result Pt
  mult_scalar pt c rescaled = do
    guard (ltb 0 pt.c0.towers) out_of_range
    let q = cc.mod_reduce pt.c0.towers
    let factor = cc.mul pt.noise_factor (cc.real pt.c0.towers)
    let scale = cc.mul pt.scale (cc.mul c (cc.real pt.c0.towers))
    ok (
        if rescaled
        then record pt {
          c0 = record (pt.c0) { towers = pt.c0.towers - 1 };
          noise_factor = cc.div factor q;
          scale = cc.div scale q;
        }
        else record pt { noise_factor = factor; noise_level = pt.noise_level + 1; scale = scale })

  unfoldable pub raise_degree_to_level : ℕ → Pt → Result Pt
  raise_degree_to_level t pt = do
    guard (ltb 0 pt.c0.towers) out_of_range
    ok (record pt {
      noise_level = pt.noise_level + 1;
      noise_factor = cc.mul pt.noise_factor (cc.real pt.c0.towers);
      scale = cc.mul pt.scale (cc.prime t);
    })

  -- dropToLevel(level, true)
  unfoldable pub drop_towers : ℕ → Pt → Pt
  drop_towers t pt = record pt { c0 = Poly.drop_to_level t pt.c0 }

  -- Each branch ends with an assertion on what `expected` computes from the recorded factor.
  unfoldable pub settle : Pt → cc.Factor → cc.Factor → Result Pt
  settle pt expected scaling_factor = do
    assert cc (cc.close expected scaling_factor)
    ok (record pt { noise_factor = scaling_factor })

  unfoldable pub align_2_2 : Pt → ℕ → cc.Factor → Result Pt
  align_2_2 pt t2 scaling_factor = do
    let scf1 = pt.noise_factor
    let scf = cc.real pt.c0.towers
    let q1 = cc.mod_reduce pt.c0.towers
    pt ← mult_scalar pt (cc.div (cc.mul (cc.div scaling_factor scf1) q1) scf) false
    pt ← rescale pt
    let pt = drop_towers t2 pt
    settle pt (cc.div (cc.mul (cc.div (cc.mul pt.noise_factor scaling_factor) scf1) q1) scf)
        scaling_factor

  unfoldable pub align_2_1 : Pt → ℕ → cc.Factor → Result Pt
  align_2_1 pt t2 scaling_factor = if pt.c0.towers - 1 == t2 then rescale pt else (do
    let scf1 = pt.noise_factor
    let scf2 = cc.big (suc t2)
    let scf = cc.real pt.c0.towers
    let q1 = cc.mod_reduce pt.c0.towers
    pt ← mult_scalar pt (cc.div (cc.mul (cc.div scf2 scf1) q1) scf) false
    pt ← rescale pt
    pt ← rescale (if ltb t2 (pt.c0.towers - 1) then drop_towers (suc t2) pt else pt)
    settle pt (cc.div (cc.mul (cc.div (cc.mul pt.noise_factor scf2) scf1) q1) scf) scaling_factor)

  unfoldable pub align_1_2 : Pt → ℕ → cc.Factor → Result Pt
  align_1_2 pt t2 scaling_factor = do
    let scf1 = pt.noise_factor
    let scf = cc.real pt.c0.towers
    pt ← mult_scalar pt (cc.div (cc.div scaling_factor scf1) scf) false
    let pt = drop_towers t2 pt
    settle pt (cc.div (cc.div (cc.mul pt.noise_factor scaling_factor) scf1) scf) scaling_factor

  unfoldable pub align_1_1 : Pt → ℕ → cc.Factor → Result Pt
  align_1_1 pt t2 scaling_factor = do
    let scf1 = pt.noise_factor
    let scf2 = cc.big (suc t2)
    let scf = cc.real pt.c0.towers
    let t1 = pt.c0.towers
    pt ← mult_scalar pt (cc.div (cc.div scf2 scf1) scf) false
    pt ← rescale (if ltb t2 (t1 - 1) then drop_towers (suc t2) pt else pt)
    settle pt (cc.div (cc.div (cc.mul pt.noise_factor scf2) scf1) scf) scaling_factor

  unfoldable pub align : Pt → ℕ → ℕ → cc.Factor → Result Pt
  align pt d2 t2 factor =
      if pt.noise_level == 2
      then if d2 == 2 then align_2_2 pt t2 factor else align_2_1 pt t2 factor
      else if d2 == 2
      then align_1_2 pt t2 factor
      else align_1_1 pt t2 factor

  unfoldable pub adjust_fixed_auto : Pt → ℕ → ℕ → Result (Bool × Pt)
  adjust_fixed_auto pt d2 t2 =
      if pt.c0.towers == t2
      then if ltb pt.noise_level d2
        then raise_degree_to_level t2 pt >>= (λ r. ok (true, r))
        else ok (false, pt)
      else if ltb t2 pt.c0.towers
      then (do
        pt ← if pt.noise_level == 2 then rescale pt else raise_degree_to_level t2 pt
        ok (true, if ltb t2 pt.c0.towers then drop_towers t2 pt else pt))
      else ok (false, pt)

  unfoldable pub adjust_flexible : Pt → ℕ → ℕ → cc.Factor → Result (Bool × Pt)
  adjust_flexible pt d2 t2 factor =
      if ltb t2 pt.c0.towers
      then align pt d2 t2 factor >>= (λ r. ok (true, r))
      else if ltb pt.c0.towers t2
      then ok (false, pt)
      else if ltb pt.noise_level d2
      then mult_scalar pt cc.one false >>= (λ r. ok (true, r))
      else ok (leb pt.noise_level d2, pt)

  -- The assertion at the entry compares doubles exactly, and reads the tables below the target.
  unfoldable pub check_target : ℕ → ℕ → Result (Unit {0})
  check_target d2 t2 = do
    guard (not (cc.debug && d2 == 2) || ltb 1 t2) out_of_range
    assert cc (not (d2 == 2) || cc.eqb (cc.mul (cc.real (t2 - 1)) (cc.mod_reduce t2)) (cc.big t2))

  unfoldable pub adjust_scale_and_level : Pt → ℕ → ℕ → cc.Factor → Result (Bool × Pt)
  adjust_scale_and_level pt d2 t2 factor =
      check_target d2 t2
      >> (if (is_fixed_manual cc.technique || is_fixed_auto cc.technique) && pt.noise_level == d2
          then ok
              (if ltb t2 pt.c0.towers then (true, drop_towers t2 pt) else (leb t2 pt.c0.towers, pt))
          else if is_fixed_auto cc.technique
          then adjust_fixed_auto pt d2 t2
          else adjust_flexible pt d2 t2 factor)

  -- On a plaintext that is not `p`, which is copied first; `adjust_in_place` is the call on itself.
  unfoldable pub adjust_in_place : Pt → Ciphertext cc.Factor → Result (Bool × Pt)
  adjust_in_place pt c =
      if is_auto cc.technique
      then adjust_scale_and_level pt c.noise_level (towers c) c.noise_factor
      else ok (false, pt)

  unfoldable pub adjust_plaintext_to_ciphertext :
      Pt → Pt → Ciphertext cc.Factor → Result (Bool × Pt)
  adjust_plaintext_to_ciphertext pt p c =
      if is_auto cc.technique then copy pt p >>= (λ q. adjust_in_place q c) else ok (false, pt)

  unfoldable pub drop_to_level : ℕ → Pt → Bool → Result Pt
  drop_to_level t pt skip_adjust =
      if leb pt.c0.towers t
      then ok pt
      else if not skip_adjust && is_flexible cc.technique
      then (do
        assert cc (pt.noise_level == 1 || pt.noise_level == 2)
        let factor = if pt.noise_level == 1 then cc.real t else cc.mul (cc.real t) (cc.real t)
        (adjusted, r) ← adjust_scale_and_level pt pt.noise_level t factor
        assert cc adjusted
        ok r)
      else ok (drop_towers t pt)

  -- multPt(b, rescale), which calls itself on an adjusted copy of b
  unfoldable pub mult_pt_fuel : ℕ → Pt → Pt → Bool → Result Pt
  mult_pt_fuel zero pt b rescaled = err out_of_fuel
  mult_pt_fuel (suc fuel) pt b rescaled =
      let again = mult_pt_fuel fuel in
      do
        pt ← if is_auto cc.technique && ltb 1 pt.noise_level then rescale pt else ok pt
        if is_flexible cc.technique && ltb pt.c0.towers b.c0.towers
            then (do
              c ← copy blank b
              c ← if c.noise_level == 2 then rescale c else ok c
              c ← if ltb pt.c0.towers c.c0.towers then drop_to_level pt.c0.towers c false else ok c
              again pt c rescaled)
            else (do
              assert cc (ltb pt.noise_level 2)
              assert cc (ltb b.noise_level 2)
              assert cc (leb b.slots pt.slots)
              r ← mult_metadata (record pt { scale = cc.mul pt.scale b.scale }) pt b
              if rescaled && ltb 1 r.noise_level then rescale r else ok r)

  unfoldable pub mult_pt : Pt → Pt → Bool → Result Pt
  mult_pt = mult_pt_fuel 2

  -- multPt(b1, b, rescale)
  unfoldable pub mult_pt_into : Pt → Pt → Pt → Bool → Result Pt
  mult_pt_into pt b1 b rescaled = do
    pt ← copy pt b1
    pt ← drop_to_level (min b.c0.towers b1.c0.towers) pt false
    pt ← mult_pt pt b rescaled
    if rescaled && ltb 1 pt.noise_level then rescale pt else ok pt
