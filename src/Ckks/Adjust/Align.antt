-- ===== src/Ckks/Adjust/Align.antt =====
-- The four branches of adjustScaleAndLevel for an operand with more towers, step by step.
use fideslib.Prelude.{
  ℕ, suc, ◌-◌, ◌≤◌, ◌<◌, ◌≡◌, ap, ◌∙◌, inl, inr, arith, ltb, ◌==◌, if◌then◌else◌, Bool-cases,
}
use fideslib.Ckks.Result.{ok}
use fideslib.Ckks.Context.{Context, IsExact}
use fideslib.Ckks.Context.Laws.{retarget, retarget_reduce, record_retarget, round_trip, big-reduce}
use fideslib.Ckks.Ciphertext.{Ciphertext}
use fideslib.Ckks.Scaling.{table_factor, rescale_internal, drop_towers}
use fideslib.Ckks.Scaling.Steps.{shape, rescale_shape, mult_shape, drop_shape}
use fideslib.Ckks.Adjust.{align_2_2, align_2_1, align_1_2, align_1_1}

module _ (cc : Context) (e : IsExact cc) (key slots : ℕ) where
  abbrev at : ℕ → ℕ → cc.Factor → cc.Factor → Ciphertext cc.Factor
  at = shape cc key slots

  -- To drop towers where there are more than the target's.
  drop_if :
      (t2 t d : ℕ) (f s : cc.Factor)
      → t2 ≤ t
      → (if ltb t2 t then drop_towers cc t2 (at t d f s) else ok (at t d f s)) ≡ ok (at t2 d f s)
  drop_if t2 t d f s h = elim (Bool-cases (ltb t2 t)) [
    | inl more ↦ rw more (drop_shape cc key slots t2 t d f s (ground arith))
    | inr same ↦ let eq : t ≡ t2 = ground arith in rw same (ap (λ (x : ℕ). ok (at x d f s)) eq)
  ]

  -- To drop to one tower more than the target's.
  drop_above :
      (t2 t d : ℕ) (f s : cc.Factor)
      → t2 < t
      → (if ltb t2 (t - 1) then drop_towers cc (suc t2) (at t d f s) else ok (at t d f s))
        ≡ ok (at (suc t2) d f s)
  drop_above t2 t d f s h = elim (Bool-cases (ltb t2 (t - 1))) [
    | inl more ↦ rw more (drop_shape cc key slots (suc t2) t d f s (ground arith))
    | inr same ↦ let eq : t ≡ suc t2 = ground arith in rw same (ap (λ (x : ℕ). ok (at x d f s)) eq)
  ]

  pred_suc : (t : ℕ) → suc t - 1 ≡ t
  pred_suc t = omega arith

  -- A rescale whose result the table names.
  pub rescale_to :
      (t d : ℕ) (f s g : cc.Factor)
      → suc t ≤ cc.top
      → cc.div f (cc.mod_reduce (suc t)) ≡ table_factor cc t d
      → cc.div s (cc.mod_reduce (suc t)) ≡ g
      → rescale_internal cc (at (suc t) (suc d) f s) ≡ ok (at t d (table_factor cc t d) g)
  rescale_to t d f s g h ef es =
      rescale_shape cc key slots t d f s h (rw ef (e.eqb_refl (table_factor cc t d)))
      ∙ ap (λ (x : cc.Factor). ok (at t d x (cc.div s (cc.mod_reduce (suc t))))) ef
      ∙ ap (λ (x : cc.Factor). ok (at t d (table_factor cc t d) x)) es

  pub align_1_2_lem :
      (t2 t : ℕ)
      → t2 < t
      → t ≤ cc.top
      → align_1_2 cc (at t 1 (cc.real t) (cc.real t)) t2 (cc.big t2)
        ≡ ok (at t2 2 (cc.big t2) (cc.big t2))
  unfolding align_1_2
  align_1_2_lem t2 t h k =
      let c = cc.div (cc.div (cc.big t2) (cc.real t)) (cc.real t) in
      let s = cc.mul (cc.real t) (cc.mul c (cc.real t)) in
      rw (
        mult_shape cc key slots t 1 (cc.real t) (cc.real t) c k,
        drop_shape cc key slots t2 t 2 (cc.mul (cc.real t) (cc.real t)) s h,
        retarget cc e (cc.real t) (cc.real t) (cc.big t2),
        round_trip cc e (cc.real t) (cc.real t) (cc.big t2),
        e.close_refl (cc.big t2),
      )

  pub align_2_2_lem :
      (t2 t : ℕ)
      → t2 ≤ t
      → suc t ≤ cc.top
      → align_2_2 cc (at (suc t) 2 (cc.big (suc t)) (cc.big (suc t))) t2 (cc.big t2)
        ≡ ok (at t2 2 (cc.big t2) (cc.big t2))
  unfolding align_2_2
  align_2_2_lem t2 t h k =
      let b = cc.big (suc t) in
      let q = cc.mod_reduce (suc t) in
      let r = cc.real (suc t) in
      let c = cc.div (cc.mul (cc.div (cc.big t2) b) q) r in
      rw (
        mult_shape cc key slots (suc t) 2 b b c k,
        pred_suc t,
        rescale_to t 2 (cc.mul (cc.big t) q) (cc.mul b (cc.mul c r)) (cc.big t2) k
            (e.div-mul (cc.big t) q) (retarget_reduce cc e b r (cc.big t2) q),
        drop_if t2 t 2 (cc.big t) (cc.big t2) h,
      )

  pub align_1_1_lem :
      (t2 t : ℕ)
      → t2 ≤ t
      → suc t ≤ cc.top
      → align_1_1 cc (at (suc t) 1 (cc.real (suc t)) (cc.real (suc t))) t2 (cc.real t2)
        ≡ ok (at t2 1 (cc.real t2) (cc.real t2))
  unfolding align_1_1
  align_1_1_lem t2 t h k =
      let r = cc.real (suc t) in
      let c = cc.div (cc.div (cc.big (suc t2)) r) r in
      let b2 = cc.big (suc t2) in
      rw (
        mult_shape cc key slots (suc t) 1 r r c k,
        drop_above t2 (suc t) 2 (cc.mul r r) (cc.mul r (cc.mul c r)) (omega arith),
        record_retarget cc e r r b2,
        retarget cc e r r b2,
        rescale_to t2 1 b2 b2 (cc.real t2) (omega arith) (big-reduce cc e t2) (big-reduce cc e t2),
      )

  pub align_2_1_lem :
      (t2 t : ℕ)
      → t2 ≤ t
      → suc t ≤ cc.top
      → align_2_1 cc (at (suc t) 2 (cc.big (suc t)) (cc.big (suc t))) t2 (cc.real t2)
        ≡ ok (at t2 1 (cc.real t2) (cc.real t2))
  unfolding align_2_1
  align_2_1_lem t2 t h k =
      let b = cc.big (suc t) in
      let q = cc.mod_reduce (suc t) in
      let r = cc.real (suc t) in
      let b2 = cc.big (suc t2) in
      let c = cc.div (cc.mul (cc.div b2 b) q) r in
      elim (Bool-cases (t == t2)) [
        | inl one_more ↦
            let eq : t ≡ t2 = ground arith in
            rw
              (
                pred_suc t,
                one_more,
                rescale_to t 1 b b (cc.real t) k (big-reduce cc e t) (big-reduce cc e t),
              )
              (ap (λ (x : ℕ). ok (at x 1 (cc.real x) (cc.real x))) eq)
        | inr more ↦ rw (
          pred_suc t,
          more,
          mult_shape cc key slots (suc t) 2 b b c k,
          pred_suc t,
          rescale_to t 2 (cc.mul (cc.big t) q) (cc.mul b (cc.mul c r)) b2 k (e.div-mul (cc.big t) q)
              (retarget_reduce cc e b r b2 q),
          drop_above t2 t 2 (cc.big t) b2 (ground arith),
          rescale_to t2 1 b2 b2 (cc.real t2) (omega arith) (big-reduce cc e t2)
              (big-reduce cc e t2),
        )
      ]
