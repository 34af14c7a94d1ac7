-- ===== src/Approx/Powers/Claims.antt =====
-- evalPolyPSWithPrecomp on the powers of evalPowersPS computes the polynomial of the slot.
use fideslib.Prelude.{
  ℕ, suc, ◌+◌, ◌-◌, ◌*◌, ◌^◌, ◌≤◌, ◌≡◌, refl, ap, ◌∙◌, Bool, Bool-cases, inl, inr, if◌then◌else◌,
  false, ltb, List, arith,
}
use fideslib.Ckks.Result.{Result, ok, err, openfhe_error}
use fideslib.Approx.Arithmetic.{Arithmetic, add-sub_cancel}
use fideslib.Approx.Vectors.{resize, at-resize, value, value-resize}
use fideslib.Approx.Openfhe.{Openfhe, IsExact, IsDivision, IsMonic, IsFactored}
use fideslib.Approx.Split.{
  divisible_at, divisible, add_power, at-add_power, length-add_power, degree-add_power,
}
use fideslib.Approx.Split.Values.{value-add_power}
use fideslib.Approx.Step.{power_facts}
use fideslib.Approx.WeightedSum.Values.{table}
use fideslib.Approx.Series.Tables.{double_at-table, at-table}
use fideslib.Approx.Powers.{eval_powers_ps, inner_eval_poly, eval_padded, eval_poly_ps}
use fideslib.Approx.Powers.Inner.{Padded, Powers, inner_eval_poly-value, inner_eval_poly-throws}
use fideslib.Approx.Powers.Fused.{two_passes, eval_poly_ps_fused}
use fideslib.Approx.Powers.Fused.Replay.{two_passes-value, two_passes-throws}
use fideslib.Approx.Powers.Tables.{power, D, powers_loop-table, squarings-table}

module _ (r : Arithmetic) (lib : Openfhe r) (x : IsExact r lib) (n : IsFactored r lib)
    (monic : IsMonic r lib lib.long_division_poly) where
  open r use {R, add, neg}

  abbrev same : R → R
  same c = c

  -- What a recursion does on the powers of y
  abbrev Evaluates :
      (y : R)
      → IsDivision r lib same (power r y) lib.long_division_poly
      → (ℕ → List R → List R → ℕ → List R → Result R)
      → Type 0
  Evaluates y d inner =
      (k m : ℕ) (f : List R) (kp : 1 ≤ k)
      → 1 ≤ m
      → Powers r lib x (power r y) k kp (table (D r y lib k) 1 m) d monic m
      → Padded r lib x (power r y) k kp (table (D r y lib k) 1 m) d monic (suc m) f
      → inner k (table (power r y) 1 k) (table (D r y lib k) 1 m) (suc m) f ≡ (
          if divisible_at r lib lib.long_division_poly k (suc m) f
          then ok (value r same (power r y) f)
          else err openfhe_error)

  eval_padded-value :
      (inner : ℕ → List R → List R → ℕ → List R → Result R) (f : List R) (y : R) (fused : Bool)
      (d : IsDivision r lib same (power r y) lib.long_division_poly)
      → Evaluates y d inner
      → 5 ≤ lib.degree f
      → eval_padded r lib inner (eval_powers_ps r lib y (lib.degree f) fused) f ≡ (
          if divisible r lib lib.long_division_poly f
          then ok (value r same (power r y) f)
          else err openfhe_error)
  unfolding eval_padded eval_powers_ps divisible
  eval_padded-value inner f y fused d evaluates high =
      let B = power r y in
      let km = lib.compute_degrees_ps (lib.degree f) in
      let k = km.0 in
      let m = km.1 - 1 in
      let kp = n.k_pos (lib.degree f) high in
      let big = n.m_big (lib.degree f) high in
      let s : km.1 ≡ suc m = omega (arith, big) in
      let mp : 1 ≤ m = omega (arith, big) in
      let room = rw s at (n.room (lib.degree f) high) in
      let few : ltb (lib.degree f) 5 ≡ false = ground (arith, high) in
      let e : suc (k - 1) ≡ k = omega (arith, kp) in
      let ts = rw e at (powers_loop-table r y lib fused (k - 1)) in
      let last =
        at-table r B k 1 (k - 1) (omega (arith, kp))
        ∙ ap B (let i : 1 + (k - 1) ≡ k = omega (arith, kp) in i) in
      let squared = squarings-table r y lib k m in
      let facts = power_facts k m kp mp in
      let top : 2 * (k * 2 ^ m - k) + k ≡ k * 2 ^ suc m - k = omega (arith, facts) in
      let v = resize r (suc (lib.degree f)) f in
      let low : lib.degree v ≤ lib.degree f =
        x.least v (lib.degree f)
          (λ i h. let a = at-resize r (suc (lib.degree f)) i f in ground (arith, a, h)) in
      let f2 = add_power r lib (k * 2 ^ suc m - k) v in
      let unchanged =
        value-resize r same B (suc (lib.degree f)) f refl (omega arith)
          (λ j h. x.above f j (omega (arith, h))) in
      let padded =
        value-add_power r lib x same B refl (k * 2 ^ suc m - k) v (omega (arith, room))
          (omega (arith, low, room)) in
      let powers = λ (i : ℕ) (p : 1 ≤ i) (h : i ≤ m).
        let s : 1 + i - 1 ≡ i = omega arith in
        double_at-table (D r y lib k) m 1 i p h ∙ ap (λ (j : ℕ). ok (B (k * 2 ^ j))) s in
      let run = evaluates k m f2 kp mp powers (
        degree-add_power r lib x (k * 2 ^ suc m - k) v,
        length-add_power r lib x (k * 2 ^ suc m - k) v,
        at-add_power r lib x (k * 2 ^ suc m - k) v,
      ) in
      elim (Bool-cases (divisible_at r lib lib.long_division_poly k (suc m) f2)) [
        | inl divides ↦
            let done = rw divides at run in
            rw (few, s, divides, ts, last, squared, top, done, padded, unchanged)
              (ap ok (add-sub_cancel r (value r same B f) (B (k * 2 ^ suc m - k))))
        | inr lost ↦
            let thrown = rw lost at run in rw (few, s, lost, ts, last, squared, top, thrown)
      ]

  pub eval_poly_ps-value :
      (f : List R) (y : R) (fused : Bool)
      → IsDivision r lib same (power r y) lib.long_division_poly
      → 5 ≤ lib.degree f
      → eval_poly_ps r lib (eval_powers_ps r lib y (lib.degree f) fused) f ≡ (
          if divisible r lib lib.long_division_poly f
          then ok (value r same (power r y) f)
          else err openfhe_error)
  unfolding eval_poly_ps
  eval_poly_ps-value f y fused d high =
      eval_padded-value (inner_eval_poly r lib) f y fused d
        (λ k m g kp mp powers p.
          let t2 = table (D r y lib k) 1 m in
          elim (Bool-cases (divisible_at r lib lib.long_division_poly k (suc m) g)) [
            | inl fits ↦
                rw fits
                  (inner_eval_poly-value r lib x (power r y) k kp t2 d monic m g mp powers p fits)
            | inr lost ↦
                rw lost
                  (inner_eval_poly-throws r lib x (power r y) k kp t2 d monic m g mp powers p lost)
          ])
        high

  pub eval_poly_ps_fused-value :
      (f : List R) (y : R) (fused : Bool)
      → IsDivision r lib same (power r y) lib.long_division_poly
      → 5 ≤ lib.degree f
      → eval_poly_ps_fused r lib (eval_powers_ps r lib y (lib.degree f) fused) f ≡ (
          if divisible r lib lib.long_division_poly f
          then ok (value r same (power r y) f)
          else err openfhe_error)
  unfolding eval_poly_ps_fused
  eval_poly_ps_fused-value f y fused d high =
      eval_padded-value (two_passes r lib) f y fused d
        (λ k m g kp mp powers p.
          let t2 = table (D r y lib k) 1 m in
          elim (Bool-cases (divisible_at r lib lib.long_division_poly k (suc m) g)) [
            | inl fits ↦
                rw fits (two_passes-value r lib x (power r y) k kp t2 d monic m g mp powers p fits)
            | inr lost ↦
                rw lost (two_passes-throws r lib x (power r y) k kp t2 d monic m g mp powers p lost)
          ])
        high
