-- ===== src/Ckks/PlainOps.antt =====
-- src/CKKS/Ciphertext.cpp: addPt, subPt, multPt and their mutable forms, on a ciphertext and a
-- plaintext. Where the ciphertext cannot be adjusted, the function calls itself on an adjusted
-- plaintext: the model's recursion takes fuel.
pub mod Flexible
pub mod Product
use fideslib.Prelude.{
  ℕ, zero, suc, ◌+◌, ◌-◌, max, Bool, true, false, not, ◌&&◌, ◌||◌, ltb, leb, ◌==◌, if◌then◌else◌,
}
use fideslib.Ckks.Result.{
  Result, ok, err, ◌>>=◌, ◌>>◌, guard, out_of_range, out_of_fuel, adjust_failure,
}
use fideslib.Ckks.Context.{Context, assert, is_fixed_manual, is_flexible, is_auto}
use fideslib.Ckks.Poly
use fideslib.Ckks.Ciphertext
use fideslib.Ckks.Ciphertext.{Ciphertext, towers}
use fideslib.Ckks.Scaling.{rescale_internal}
use fideslib.Ckks.Adjust.{adjust_scale_and_level}
use fideslib.Ckks.Plaintext
use fideslib.Ckks.Plaintext.{Plaintext, adjust_plaintext_to_ciphertext, adjust_in_place}

module _ (cc : Context) where
  abbrev Ct : Type 0
  Ct = Ciphertext cc.Factor

  abbrev Pt : Type 0
  Pt = Plaintext cc.Factor

  -- addMetadata(a, b) with a plaintext b
  unfoldable pub add_pt_metadata : Ct → Pt → Result Ct
  add_pt_metadata a b = do
    assert cc (not (is_flexible cc.technique) || towers a == b.c0.towers)
    assert cc (a.noise_level == b.noise_level)
    ok (record a { slots = max a.slots b.slots })

  -- multMetadata(a, b) with a plaintext b
  unfoldable pub mult_pt_metadata : Ct → Pt → Ct
  mult_pt_metadata a b = record a {
    slots = max a.slots b.slots;
    noise_level = a.noise_level + b.noise_level;
    noise_factor = cc.mul a.noise_factor b.noise_factor;
  }

  unfoldable pub adjust_ciphertext_to_plaintext : Ct → Pt → Result (Bool × Ct)
  adjust_ciphertext_to_plaintext a b =
      if is_auto cc.technique
      then adjust_scale_and_level cc a b.noise_level b.c0.towers b.noise_factor
      else assert cc false >> ok (false, a)

  -- An extended operand has to match; `one` asks for degree 1 as well.
  unfoldable pub check_plain : Ct → Pt → Bool → Result (Unit {0})
  check_plain a b one = do
    let extended = a.c0.mod_up || a.c1.mod_up || b.c0.mod_up
    assert cc (not extended || towers a == b.c0.towers)
    assert cc (not extended || a.noise_level == b.noise_level)
    assert cc (not (extended && one) || a.noise_level == 1)

  -- A degree-2 ciphertext one level above a degree-1 plaintext is rescaled.
  unfoldable pub approach : Ct → Pt → Result Ct
  approach a b =
      if b.noise_level == 1 && a.noise_level == 2 && suc b.c0.towers == towers a
      then rescale_internal cc a
      else ok a

  unfoldable pub add_pt_aligned : Ct → Pt → Result Ct
  add_pt_aligned a b = do
    assert cc (a.noise_level == b.noise_level)
    c0 ← Poly.add cc a.c0 b.c0
    add_pt_metadata (record a { c0 = c0 }) b

  unfoldable pub add_pt_fuel : ℕ → Ct → Pt → Result Ct
  add_pt_fuel zero a b = err out_of_fuel
  add_pt_fuel (suc fuel) a b =
      let again = add_pt_fuel fuel in
      do
        a ← Ciphertext.ensure_resident cc a
        if is_auto cc.technique
            then (do
              check_plain a b false
              a ← approach a b
              (adjusted, a) ← adjust_ciphertext_to_plaintext a b
              if adjusted then add_pt_aligned a b else (do
                (b_adjusted, c) ← adjust_plaintext_to_ciphertext cc (Plaintext.blank cc) b a
                if b_adjusted then again a c else err adjust_failure))
            else add_pt_aligned a b

  unfoldable pub add_pt : Ct → Pt → Result Ct
  add_pt = add_pt_fuel 2

  unfoldable pub add_pt_mutable : Ct → Pt → Result (Ct × Pt)
  add_pt_mutable a b =
      if is_auto cc.technique
      then (do
        check_plain a b false
        a ← approach a b
        (adjusted, a) ← adjust_ciphertext_to_plaintext a b
        (b_adjusted, b) ← if adjusted then ok (true, b) else adjust_in_place cc b a
        guard b_adjusted adjust_failure
        assert cc (not adjusted || a.noise_level == b.noise_level)
        a ← add_pt a b
        ok (a, b))
      else (do assert cc (a.noise_level == b.noise_level); a ← add_pt a b; ok (a, b))

  unfoldable pub sub_pt_aligned : Ct → Pt → Result Ct
  sub_pt_aligned a b = do
    assert cc (a.noise_level == b.noise_level)
    c0 ← Poly.sub cc a.c0 b.c0
    add_pt_metadata (record a { c0 = c0 }) b

  unfoldable pub sub_pt_fuel : ℕ → Ct → Pt → Result Ct
  sub_pt_fuel zero a b = err out_of_fuel
  sub_pt_fuel (suc fuel) a b =
      let again = sub_pt_fuel fuel in
      do
        a ← Ciphertext.ensure_resident cc a
        if is_auto cc.technique
            then (do
              check_plain a b true
              a ← approach a b
              (adjusted, a) ← adjust_ciphertext_to_plaintext a b
              if adjusted then sub_pt_aligned a b else (do
                (b_adjusted, c) ← adjust_plaintext_to_ciphertext cc (Plaintext.blank cc) b a
                if b_adjusted then again a c else err adjust_failure))
            else sub_pt_aligned a b

  unfoldable pub sub_pt : Ct → Pt → Result Ct
  sub_pt = sub_pt_fuel 2

  unfoldable pub sub_pt_mutable : Ct → Pt → Result (Ct × Pt)
  sub_pt_mutable a b =
      if is_auto cc.technique
      then (do
        check_plain a b true
        a ← approach a b
        (adjusted, a) ← adjust_ciphertext_to_plaintext a b
        (b_adjusted, b) ← if adjusted then ok (true, b) else adjust_in_place cc b a
        guard b_adjusted adjust_failure
        assert cc (not adjusted || a.noise_level == b.noise_level)
        a ← sub_pt a b
        ok (a, b))
      else (do assert cc (a.noise_level == b.noise_level); a ← sub_pt a b; ok (a, b))

  -- Both polynomials by the plaintext's, and a rescale of them under FIXEDMANUAL if asked for
  unfoldable pub mult_pt_aligned : Ct → Pt → Bool → Result Ct
  mult_pt_aligned a b rescale = do
    let r = record a { scale = cc.mul a.scale b.scale }
    if rescale && is_fixed_manual cc.technique
        then (do
          guard (ltb 0 a.c0.towers && ltb 0 a.c1.towers) out_of_range
          let q = cc.mod_reduce a.c0.towers
          let r =
              mult_pt_metadata
                (record r {
                  c0 = record (a.c0) { towers = a.c0.towers - 1 };
                  c1 = record (a.c1) { towers = a.c1.towers - 1 };
                  scale = cc.div (cc.mul a.scale b.scale) q;
                })
                b
          guard (ltb 0 r.noise_level) out_of_range
          ok (record r { noise_factor = cc.div r.noise_factor q; noise_level = r.noise_level - 1 }))
        else ok (mult_pt_metadata r b)

  -- assert(NoiseLevel < 2), assert(b.NoiseLevel < 2), and the product
  unfoldable pub mult_pt_checked : Ct → Pt → Bool → Result Ct
  mult_pt_checked a b rescale = do
    assert cc (ltb a.noise_level 2)
    assert cc (ltb b.noise_level 2)
    mult_pt_aligned a b rescale

  abbrev rescale_if_2 : Ct → Result Ct
  rescale_if_2 a = if a.noise_level == 2 then rescale_internal cc a else ok a

  unfoldable pub mult_pt_fuel : ℕ → Ct → Pt → Bool → Bool → Result Ct
  mult_pt_fuel zero a b rescale ignore_scale = err out_of_fuel
  mult_pt_fuel (suc fuel) a b rescale ignore_scale =
      let again = mult_pt_fuel fuel in
      do
        a ← Ciphertext.ensure_resident cc a
        if ignore_scale
            then mult_pt_aligned a b rescale
            else if is_auto cc.technique
            then (do
              check_plain a b true
              (adjusted, a) ← adjust_ciphertext_to_plaintext a b
              if not adjusted || not (b.noise_level == 1)
                  then (do
                    (b_adjusted, c) ← adjust_plaintext_to_ciphertext cc (Plaintext.blank cc) b a
                    guard b_adjusted adjust_failure
                    a ← rescale_if_2 a
                    c ← if c.noise_level == 2 then Plaintext.rescale cc c else ok c
                    again a c rescale false)
                  else (do a ← rescale_if_2 a; mult_pt_checked a b rescale))
            else mult_pt_checked a b rescale

  unfoldable pub mult_pt : Ct → Pt → Bool → Bool → Result Ct
  mult_pt = mult_pt_fuel 2

  unfoldable pub mult_pt_mutable : Ct → Pt → Bool → Result (Ct × Pt)
  mult_pt_mutable a b rescale =
      if is_auto cc.technique
      then (do
        check_plain a b true
        a ← rescale_if_2 a
        check_plain a b true
        (adjusted, a) ← adjust_ciphertext_to_plaintext a b
        if not adjusted || not (b.noise_level == 1)
            then (do
              (b_adjusted, b) ← adjust_in_place cc b a
              guard b_adjusted adjust_failure
              a ← rescale_if_2 a
              b ← if b.noise_level == 2 then Plaintext.rescale cc b else ok b
              a ← mult_pt a b rescale false
              ok (a, b))
            else (do
              a ← rescale_if_2 a
              assert cc (ltb a.noise_level 2)
              assert cc (ltb b.noise_level 2)
              a ← mult_pt a b rescale false
              ok (a, b)))
      else (do
        assert cc (ltb a.noise_level 2)
        assert cc (ltb b.noise_level 2)
        a ← mult_pt a b rescale false
        ok (a, b))
